-- ===== src/Prelude/Dict.antt =====
-- Go's maps and the tables of the database: finite maps with one entry for each key.
-- The entries are kept newest first; a client has the laws below, and none that shows the order.
mod Assoc
pub use Assoc.{survives}
use Assoc.{
  lookup, without, map_entries, drop_where, any_entry, Unique, Unique-without, Unique-map_entries,
  Unique-drop_where, lookup-without, lookup-map_entries, lookup-drop_where, any_entry-lookup,
  any_entry_witness, Has-lookup, lookup-Has,
}
use mathlib.Core.Path.{◌≡◌, refl}
use mathlib.Core.Logic.{◌↔◌, inl, inr}
use mathlib.Core.Bool.{Bool, true, false}
use mathlib.Core.Option
use mathlib.Core.Option.{Option, none, some}
use mathlib.Core.List.{List, [], ◌∷◌}
use native.Mathlib.Omega.{arith}
use smartclass.Prelude.Tests.{if◌then◌else◌, Option-cases}
use smartclass.Prelude.Lists.{Has}
use smartclass.Prelude.Equality.{Eq, ◌==◌}

pub record Dict (K V : Type 0) ⦃e : Eq K⦄ : Type 0 where
  entries : List (K × V)
  unique : Unique entries

module _ {K V : Type 0} ⦃e : Eq K⦄ where
  unfoldable pub empty : Dict K V
  unfolding Unique
  empty = record { entries = []; unique = tt }

  -- m[k], or a row by its primary key
  unfoldable pub get : Dict K V → K → Option V
  unfolding lookup
  get d k = lookup k d.entries

  pub lookup-without_self : (k : K) (l : List (K × V)) → lookup k (without k l) ≡ none
  lookup-without_self k l = ground (arith, lookup-without k k l, e.beq_iff k k)

  -- m[k] = v
  unfoldable pub put : Dict K V → K → V → Dict K V
  unfolding Unique without lookup
  put d k v = record {
    entries = (k, v) ∷ without k d.entries;
    unique = (lookup-without_self k d.entries, Unique-without k d.entries d.unique);
  }

  -- delete(m, k)
  unfoldable pub remove : Dict K V → K → Dict K V
  unfolding without
  remove d k = record {
    entries = without k d.entries;
    unique = Unique-without k d.entries d.unique;
  }

  -- UPDATE of every row
  unfoldable pub map_values : (K → V → V) → Dict K V → Dict K V
  unfolding map_entries
  map_values f d = record {
    entries = map_entries f d.entries;
    unique = Unique-map_entries f d.entries d.unique;
  }

  -- DELETE … WHERE
  unfoldable pub remove_where : (K → V → Bool) → Dict K V → Dict K V
  unfolding drop_where
  remove_where p d = record {
    entries = drop_where p d.entries;
    unique = Unique-drop_where p d.entries d.unique;
  }

  -- EXISTS (SELECT … WHERE)
  unfoldable pub any_row : (K → V → Bool) → Dict K V → Bool
  unfolding any_entry
  any_row p d = any_entry p d.entries

  -- for k, v := range m
  unfoldable pub rows : Dict K V → List (K × V)
  rows d = d.entries

  pub get-empty : (k : K) → get empty k ≡ none
  unfolding get empty
  get-empty k = refl

  pub get-put :
      (d : Dict K V) (k j : K) (v : V) → get (put d k v) j ≡ (if k == j then some v else get d j)
  unfolding get put
  get-put d k j v = ground (arith, lookup-without k j d.entries)

  pub get-remove :
      (d : Dict K V) (k j : K) → get (remove d k) j ≡ (if k == j then none else get d j)
  unfolding get remove
  get-remove d k j = lookup-without k j d.entries

  pub get-map_values :
      (f : K → V → V) (d : Dict K V) (j : K) → get (map_values f d) j ≡ Option.map (f j) (get d j)
  unfolding get map_values
  get-map_values f d j = lookup-map_entries f j d.entries

  -- A row of an updated table comes from a row of the old one.
  pub map_values_inv :
      (f : K → V → V) (d : Dict K V) (j : K) (v : V)
      → get (map_values f d) j ≡ some v
      → (w : V) × (get d j ≡ some w) × (v ≡ f j w)
  map_values_inv f d j v h = elim (Option-cases (get d j)) [
    | inl missing ↦ absurd (cc (get-map_values f d j, missing, h))
    | inr (w, found) ↦
        let here : some v ≡ some (f j w) = cc (get-map_values f d j, found, h) in
        (w, found, ground arith)
  ]

  pub get-remove_where :
      (p : K → V → Bool) (d : Dict K V) (j : K) → get (remove_where p d) j ≡ survives p j (get d j)
  unfolding get remove_where
  get-remove_where p d j = lookup-drop_where p j d.entries d.unique

  pub any_row-get :
      (p : K → V → Bool) (d : Dict K V) (k : K) (v : V)
      → any_row p d ≡ false
      → get d k ≡ some v
      → p k v ≡ false
  unfolding any_row get
  any_row-get p d k v h m = any_entry-lookup p d.entries k v h m

  pub any_row_witness :
      (p : K → V → Bool) (d : Dict K V)
      → any_row p d ≡ true
      → (k : K) × (v : V) × (get d k ≡ some v) × (p k v ≡ true)
  unfolding any_row get
  any_row_witness p d h = any_entry_witness p d.entries d.unique h

  -- A range over the map meets each entry, and nothing else.
  pub Has-rows : (d : Dict K V) (k : K) (v : V) → Has (k, v) (rows d) ↔ (get d k ≡ some v)
  unfolding rows get
  Has-rows d k v = (Has-lookup d.entries k v d.unique, lookup-Has d.entries k v)

pub ruleset dict_laws = (get-empty, get-put, get-remove, get-map_values, get-remove_where)
