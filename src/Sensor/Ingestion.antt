-- ===== src/Sensor/Ingestion.antt =====
-- What Ingest of backend/internal/sensor/service.go stores, and what it leaves when it fails.
use smartclass.Prelude.{
  append-nil, append_assoc, ℕ, suc, ◌+◌, true, List, [], ◌∷◌, ◌++◌, map, ◌≡◌, refl, sym, ap, ◌∙◌,
  length, All, arith, Bool-cases, Option-cases, inl, inr,
}
use smartclass.Platform.Errors.{Error, ok, err, Result-cases}
use smartclass.Platform.Context.{Ctx}
use smartclass.User.{Principal}
use smartclass.Classroom.Repository.{Db}
use smartclass.Device.Repository.{Device}
use smartclass.Sensor.Repository.{Reading, Table, metric_valid, dated, prepare, append_rows, insert}
use smartclass.Sensor.Reads.{read_device}
use smartclass.Sensor.Service.{IngestItem, Site, Sources, reading_of, tell, ingest_items, ingest}

-- The rows that the table gives to readings: consecutive ids from `n` on.
abbrev pub numbered : {Value : Type 0} → Ctx → ℕ → List (Reading Value) → List (Reading Value)
numbered c n [] = []
numbered c n (r ∷ rs) = record (dated c r) { id = n } ∷ numbered c (n + 1) rs

-- An item that Ingest accepts: of a known metric, and of a device that the principal may read.
abbrev pub IsReadable : (s : Sources) → Ctx → Db → Principal → IngestItem s.rules.Value → Type 0
IsReadable s c db p it =
    (metric_valid it.metric ≡ true)
    × (d : Device) × (read_device c db s.devices p it.device_id ≡ ok d)

ingest_items_ok :
    (s : Sources) (c : Ctx) (db : Db) (p : Principal) (its : List (IngestItem s.rules.Value))
    (site : Site s.rules.Value) (rs : List (Reading s.rules.Value))
    → (ingest_items s c db p its site).0 ≡ ok rs
    → (rs ≡ map (reading_of s c) its) × All (IsReadable s c db p) its
unfolding ingest_items
ingest_items_ok s c db p [] site rs h = (ground arith, tt)
ingest_items_ok s c db p (it ∷ its) site rs h = elim (Bool-cases (metric_valid it.metric)) [
  | inr bad ↦ absurd (ground arith)
  | inl good ↦ elim (Result-cases (read_device c db s.devices p it.device_id)) [
    | inr (e, failed) ↦ absurd (ground arith)
    | inl (d, found) ↦
        let told = (tell s c db d it site).1 in
        elim (Result-cases (ingest_items s c db p its told).0) [
          | inr (e, failed) ↦ absurd (ground arith)
          | inl (rest, done) ↦
              let (readings, all) = ingest_items_ok s c db p its told rest done in
              (ground arith, ((good, d, found), all))
        ]
  ]
]

ingest_items_readings :
    (s : Sources) (c : Ctx) (db : Db) (p : Principal) (its : List (IngestItem s.rules.Value))
    (site : Site s.rules.Value)
    → (ingest_items s c db p its site).1.readings ≡ site.readings
unfolding ingest_items
ingest_items_readings s c db p [] site = refl
ingest_items_readings s c db p (it ∷ its) site =
    elim (Result-cases (read_device c db s.devices p it.device_id)) [
      | inr (e, failed) ↦ ground arith
      | inl (d, found) ↦
          let told = (tell s c db d it site).1 in
          let rest = ingest_items_readings s c db p its told in
          elim (Result-cases (ingest_items s c db p its told).0) [
            | inr (e, failed) ↦ ground (arith, rest)
            | inl (rs, done) ↦ ground (arith, rest)
          ]
    ]

append_rows-prepare :
    {Value : Type 0} (c : Ctx) (rs ps : List (Reading Value)) (t : Table Value)
    → prepare c rs ≡ ok ps
    → (append_rows ps t).entries ≡ t.entries ++ numbered c t.next_id rs
unfolding prepare append_rows
append_rows-prepare c [] ps t h =
    let empty : [] ≡ ps = ground arith in
    ap (λ (l : List _). (append_rows l t).entries) (sym empty) ∙ sym (append-nil t.entries)
append_rows-prepare {Value} c (r ∷ rs) ps t h = elim (Option-cases r.raw) [
  | inl bad ↦ absurd (ground arith)
  | inr (json, good) ↦ elim (Result-cases (prepare c rs)) [
    | inr (e, failed) ↦ absurd (ground arith)
    | inl (rest, done) ↦
        let whole : dated c r ∷ rest ≡ ps = ground arith in
        let row = record (dated c r) { id = t.next_id } in
        let t' : Table Value = record {
          next_id = t.next_id + 1;
          entries = t.entries ++ row ∷ [];
        } in
        ap (λ (l : List _). (append_rows l t).entries) (sym whole)
        ∙ append_rows-prepare c rs rest t' done
        ∙ append_assoc t.entries (row ∷ []) (numbered c (t.next_id + 1) rs)
  ]
]

insert_lem :
    {Value : Type 0} (c : Ctx) (rs : List (Reading Value)) (t : Table Value)
    → ((insert c rs t).0 ≡ ok tt → (insert c rs t).1.entries ≡ t.entries ++ numbered c t.next_id rs)
      × ((e : Error) → (insert c rs t).0 ≡ err e → (insert c rs t).1 ≡ t)
unfolding insert
insert_lem c [] t = (λ h. sym (append-nil t.entries), λ e h. refl)
insert_lem c (r ∷ rs) t = elim (Result-cases (prepare c (r ∷ rs))) [
  | inr (x, failed) ↦ (λ h. absurd (ground arith), λ e h. ground arith)
  | inl (ps, done) ↦
      let rows = append_rows-prepare c (r ∷ rs) ps t done in
      (λ h. ground (arith, rows), λ e h. ground arith)
]

length-map : {A B : Type 0} (f : A → B) (xs : List A) → length (map f xs) ≡ length xs
length-map f [] = refl
length-map f (x ∷ xs) = ap suc (length-map f xs)

-- When Ingest succeeds, it has accepted every item, each of a known metric and of a device that the
-- principal may read, and stored one reading for each, in their order, behind those that were
-- stored; the answer is their number.
pub ingest_ok :
    (s : Sources) (c : Ctx) (db : Db) (p : Principal) (its : List (IngestItem s.rules.Value))
    (site : Site s.rules.Value) (n : ℕ)
    → (ingest s c db p its site).0 ≡ ok n
    → (n ≡ length its)
      × All (IsReadable s c db p) its
      × ((ingest s c db p its site).1.readings.entries
          ≡ site.readings.entries ++ numbered c site.readings.next_id (map (reading_of s c) its))
unfolding ingest
ingest_ok s c db p [] site n h = (ground arith, tt, sym (append-nil site.readings.entries))
ingest_ok s c db p (it ∷ its) site n h =
    elim (Result-cases (ingest_items s c db p (it ∷ its) site).0) [
      | inr (e, failed) ↦ absurd (ground arith)
      | inl (rs, done) ↦
          let site' = (ingest_items s c db p (it ∷ its) site).1 in
          let (readings, all) = ingest_items_ok s c db p (it ∷ its) site rs done in
          let same = ingest_items_readings s c db p (it ∷ its) site in
          let long = length-map (reading_of s c) (it ∷ its) in
          elim (Result-cases (insert c rs site'.readings).0) [
            | inr (e, failed) ↦ absurd (ground arith)
            | inl (u, stored) ↦
                let rows = (insert_lem c rs site'.readings).0 stored in
                let after : (ingest s c db p (it ∷ its) site).1.readings
                    ≡ (insert c rs site'.readings).1 =
                  ground arith in
                let number : length rs ≡ n = ground arith in
                (
                  sym number ∙ ap length readings ∙ long,
                  all,
                  ap (λ (t : Table s.rules.Value). t.entries) after
                      ∙ rows
                      ∙ (λ i. (same i).entries ++ numbered c (same i).next_id (readings i)),
                )
          ]
    ]

-- When Ingest fails, no reading is stored, also where events of the first items have gone out.
pub ingest_failed :
    (s : Sources) (c : Ctx) (db : Db) (p : Principal) (its : List (IngestItem s.rules.Value))
    (site : Site s.rules.Value) (e : Error)
    → (ingest s c db p its site).0 ≡ err e
    → (ingest s c db p its site).1.readings ≡ site.readings
unfolding ingest
ingest_failed s c db p [] site e h = refl
ingest_failed s c db p (it ∷ its) site e h =
    let same = ingest_items_readings s c db p (it ∷ its) site in
    let site' = (ingest_items s c db p (it ∷ its) site).1 in
    elim (Result-cases (ingest_items s c db p (it ∷ its) site).0) [
      | inr (x, failed) ↦ ground (arith, same)
      | inl (rs, done) ↦ elim (Result-cases (insert c rs site'.readings).0) [
        | inl (u, stored) ↦ absurd (ground arith)
        | inr (x, failed) ↦ ground (arith, same, (insert_lem c rs site'.readings).1 x failed)
      ]
    ]
