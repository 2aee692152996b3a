-- ===== src/Analytics/Usage.antt =====
-- What DeviceUsage of backend/internal/analytics answers.
use smartclass.Prelude.{
  ℕ, ◌+◌, ◌≤◌, ◌<◌, true, false, ◌&&◌, some, List, ◌≡◌, ◌↔◌, ◌⊎◌, inl, inr, refl, length, ap, ◌∙◌,
  subst, ◌==◌, nat_eq, string_eq, keep, map, leb, arith, Option-cases,
}
use smartclass.Prelude.Dict.{get}
use smartclass.Prelude.Sort.{sort_with}
use smartclass.Platform.Errors.{ok, Result-cases}
use smartclass.Platform.Context.{Ctx}
use smartclass.User.{Principal}
use smartclass.Classroom.Repository.{Db}
use smartclass.Classroom.Service.{authorize}
use smartclass.Device.Repository as Devices
use smartclass.Device.Repository.{Device}
use smartclass.Audit.Repository as Audit
use smartclass.Audit.Repository.{Row}
use smartclass.Analytics.Groups.{groups}
use smartclass.Analytics.Summary.{IsSummary, sorted-IsSummary}
use smartclass.Analytics.Report.{IsReport, summary-IsReport}
use smartclass.Analytics.Repository
use smartclass.Analytics.Repository.{
  DeviceUsage, between, device_of, is_command, usage_of, busiest_first,
}
use smartclass.Analytics.Service.{from_or, to_or, device_usage}

-- A time of the period that is asked for: from seven days ago where no start is given, and up to now
-- where no end is given.
abbrev pub IsAsked : Ctx → ℕ → ℕ → ℕ → Type 0
IsAsked c from to t =
    (((from ≡ 0) × (c.now ≤ t + 604800)) ⊎ ((0 < from) × (from ≤ t)))
    × (((to ≡ 0) × (t ≤ c.now)) ⊎ ((0 < to) × (t ≤ to)))

pub between_iff :
    (c : Ctx) (from to t : ℕ)
    → (between (from_or c 7 from) (to_or c to) t ≡ true) ↔ IsAsked c from to t
between_iff c from to t = (λ h. (ground (arith, h), ground (arith, h)), λ h. ground (arith, h))

abbrev pub IsIn : Devices.Table → ℕ → ℕ → Type 0
IsIn devices classroom_id d =
    (dev : Device) × (get devices d ≡ some dev) × (dev.classroom_id ≡ classroom_id)

-- A row of the audit log that tells of a command to the device `d`
abbrev pub IsCommandTo : Ctx → Devices.Table → ℕ → ℕ → ℕ → ℕ → Row → Type 0
IsCommandTo c devices classroom_id from to d r =
    (r.entry.entity_type ≡ "device")
    × (r.entry.action ≡ "command")
    × (r.entry.entity_id ≡ some d)
    × IsIn devices classroom_id d
    × IsAsked c from to r.entry.created_at

abbrev pub IsUsage : Ctx → Devices.Table → ℕ → ℕ → ℕ → List Row → List DeviceUsage → Type 0
IsUsage c devices classroom_id from to =
    IsReport (IsCommandTo c devices classroom_id from to)
      (λ (g : ℕ × List Row). record { device_id = g.0; command_count = length g.1 })
      (λ a b. leb b.command_count a.command_count) (λ u. u.command_count)

command_iff :
    (c : Ctx) (devices : Devices.Table) (classroom_id from to : ℕ) (r : Row) (d : ℕ)
    → (is_command devices classroom_id (from_or c 7 from) (to_or c to) r && device_of r == d ≡ true)
      ↔ IsCommandTo c devices classroom_id from to d r
command_iff c devices classroom_id from to r d = (
  λ h. elim (Option-cases r.entry.entity_id) [
    | inl missing ↦ absurd (ground (arith, missing, h))
    | inr (i, at) ↦ elim (Option-cases (get devices i)) [
      | inl missing ↦ absurd (ground (arith, at, missing, h))
      | inr (dev, found) ↦
          let same : i ≡ d = ground (arith, at, h) in
          (
            ground (arith, h, string_eq.beq_iff r.entry.entity_type "device"),
            ground (arith, h, string_eq.beq_iff r.entry.action "command"),
            at ∙ ap some same,
            (dev, subst (λ k. get devices k ≡ some dev) same found, ground (arith, at, found, h)),
            (between_iff c from to r.entry.created_at).0 (ground (arith, h)),
          )
    ]
  ],
  λ (is_device, is_command, at, (dev, found, own), asked).
      let in_time = (between_iff c from to r.entry.created_at).1 asked in
      ground (
        arith,
        is_device,
        is_command,
        at,
        found,
        own,
        in_time,
        string_eq.beq_iff r.entry.entity_type "device",
        string_eq.beq_iff r.entry.action "command",
      ),
)

-- A successful DeviceUsage was asked by one who may read the classroom. It shows exactly the devices of
-- the classroom that had commands in the period (the week up to now, where none is given), with the
-- number of their commands, the busiest first, and the numbers add up to the commands.
pub device_usage_ok :
    (c : Ctx) (db : Db) (devices : Devices.Table) (log : Audit.Table) (p : Principal)
    (classroom_id from to : ℕ) (list : List DeviceUsage)
    → device_usage c db devices log p classroom_id from to ≡ ok list
    → (authorize c db p classroom_id false ≡ ok tt)
      × IsUsage c devices classroom_id from to log.entries list
unfolding device_usage Repository.device_usage
device_usage_ok c db devices log p classroom_id from to list h =
    elim (Result-cases (authorize c db p classroom_id false)) [
      | inr (e, refused) ↦ absurd (ground (arith, refused))
      | inl (u, allowed) ↦
          let asked = is_command devices classroom_id (from_or c 7 from) (to_or c to) in
          let rows = keep asked log.entries in
          let shown : sort_with busiest_first (map usage_of (groups device_of rows)) ≡ list =
            ground (arith, allowed, h) in
          let summary =
            sorted-IsSummary device_of usage_of busiest_first (λ u. u.command_count)
              (λ a b h. ground arith) (λ k rows. refl) rows in
          (
            allowed,
            summary-IsReport (IsCommandTo c devices classroom_id from to) usage_of busiest_first
                (λ u. u.command_count) device_of asked (command_iff c devices classroom_id from to)
                log.entries list
                (subst (IsSummary device_of usage_of busiest_first (λ u. u.command_count) rows)
                  shown summary),
          )
    ]
