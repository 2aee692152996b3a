-- ===== src/Device/Requests.antt =====
-- The requests that change a site, as the handlers of backend/internal/device pass them on.
use smartclass.Prelude.{ℕ, ◌≡◌, refl, arith}
use smartclass.Platform.Errors.{Result, ok, err}
use smartclass.Platform.Exec.{Exec}
use smartclass.Platform.Context.{Ctx}
use smartclass.User.{Principal}
use smartclass.Classroom.Repository.{Db}
use smartclass.Device.Drivers.{Command, Factory}
use smartclass.Device.Repository.{Device}
use smartclass.Device.Service
use smartclass.Device.Service.{CreateInput, UpdateInput, Site}

pub data Request : Type 0 where
  create : CreateInput → Request
  update : ℕ → UpdateInput → Request
  delete : ℕ → Request
  execute : ℕ → Command → Request

abbrev forget : {S : Type 0} → Result Device × S → Result (Unit {0}) × S
forget (ok d, s) = (ok tt, s)
forget (err e, s) = (err e, s)

unfoldable pub perform : Ctx → Db → Factory → Principal → Request → Exec Site (Unit {0})
perform c db f p (create input) site = forget (Service.create c db f p input site)
perform c db f p (update id input) site = forget (Service.update c db f p id input site)
perform c db f p (delete id) site = Service.delete c db p id site
perform c db f p (execute id cmd) site = forget (Service.execute c db f p id cmd site)

pub perform-execute :
    (c : Ctx) (db : Db) (f : Factory) (p : Principal) (id : ℕ) (cmd : Command) (site : Site)
    → (perform c db f p (execute id cmd) site).1 ≡ (Service.execute c db f p id cmd site).1
unfolding perform
perform-execute c db f p id cmd site = ground arith

pub perform-create :
    (c : Ctx) (db : Db) (f : Factory) (p : Principal) (input : CreateInput) (site : Site)
    → (perform c db f p (create input) site).1 ≡ (Service.create c db f p input site).1
unfolding perform
perform-create c db f p input site = ground arith

pub perform-update :
    (c : Ctx) (db : Db) (f : Factory) (p : Principal) (id : ℕ) (input : UpdateInput) (site : Site)
    → (perform c db f p (update id input) site).1 ≡ (Service.update c db f p id input site).1
unfolding perform
perform-update c db f p id input site = ground arith

pub perform-delete :
    (c : Ctx) (db : Db) (f : Factory) (p : Principal) (id : ℕ) (site : Site)
    → (perform c db f p (delete id) site).1 ≡ (Service.delete c db p id site).1
unfolding perform
perform-delete c db f p id site = refl
