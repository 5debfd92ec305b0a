-- ===== src/CrdWatch/Handlers.antt =====
-- What the sets of a watch hold, and when the handlers are called.
use Prim.Native.Nat.{suc, ◌≤◌}
use ssp_operator.Base.{
  String, ◌≡◌, refl, Bool, true, false, ◌&&◌, not, List, [], ◌∷◌, arith, length, contains,
  string_eq, if◌then◌else◌,
}
use ssp_operator.Base.Dict.{add, remove, contains-add, contains-remove, add-ne-nil}
use ssp_operator.CrdWatch.{
  CrdWatch, all_crds_added, some_crd_removed, set_of, crd_added, crd_deleted,
}

abbrev pub Distinct : List String → Type 0
Distinct [] = Unit
Distinct (x ∷ xs) = (contains xs x ≡ false) × Distinct xs

add-Distinct : (a : String) (s : List String) → Distinct s → Distinct (add a s)
unfolding add
add-Distinct a [] d = (refl, tt)
add-Distinct a (x ∷ s) d = ground (arith, contains-add x a s, add-Distinct a s d.1)

remove-Distinct : (a : String) (s : List String) → Distinct s → Distinct (remove a s)
unfolding remove
remove-Distinct a [] d = tt
remove-Distinct a (x ∷ s) d = ground (arith, contains-remove x a s, remove-Distinct a s d.1)

pub set_of-Distinct : (names : List String) → Distinct (set_of names)
unfolding set_of
set_of-Distinct [] = tt
set_of-Distinct (name ∷ names) = add-Distinct name (set_of names) (set_of-Distinct names)

pub contains-set_of :
    (names : List String) (n : String) → contains (set_of names) n ≡ contains names n
unfolding set_of
contains-set_of [] n = refl
contains-set_of (name ∷ names) n =
    ground (arith, contains-add n name (set_of names), contains-set_of names n)

pub record IsConsistent (c : CrdWatch) : Type 0 where
  -- A definition is missing exactly if it is required and does not exist.
  pub missing :
      (n : String)
      → contains c.missing_crds n ≡ (contains c.required_crds n && not (contains c.existing_crds n))
  pub distinct : Distinct c.missing_crds

remove_absent : (a : String) (s : List String) → contains s a ≡ false → remove a s ≡ s
unfolding remove
remove_absent a [] h = refl
remove_absent a (x ∷ s) h = ground (arith, remove_absent a s)

-- At most one name goes.
length-remove : (a : String) (s : List String) → Distinct s → length s ≤ suc (length (remove a s))
unfolding remove
length-remove a [] d = omega arith
length-remove a (x ∷ s) d = ground (arith, length-remove a s d.1, remove_absent a s)

pub crd_added-IsConsistent :
    (c : CrdWatch) (name : String) → IsConsistent c → IsConsistent (crd_added c name).0
unfolding crd_added
crd_added-IsConsistent c name i = record {
  missing = λ n. ground (
    arith,
    contains-remove n name c.missing_crds,
    contains-add n name c.existing_crds,
    i.missing n,
  );
  distinct = ground (arith, remove-Distinct name c.missing_crds i.distinct);
}

pub crd_deleted-IsConsistent :
    (c : CrdWatch) (name : String) → IsConsistent c → IsConsistent (crd_deleted c name).0
unfolding crd_deleted
crd_deleted-IsConsistent c name i = record {
  missing = λ n. ground (
    arith,
    contains-add n name c.missing_crds,
    contains-remove n name c.existing_crds,
    i.missing n,
  );
  distinct = ground (arith, add-Distinct name c.missing_crds i.distinct, i.distinct);
}

abbrev pub is_empty : List String → Bool
is_empty [] = true
is_empty (x ∷ xs) = false

-- An added definition keeps the watch consistent. In an initialised watch with a handler, the handler
-- is called once if some required definition was missing and none is any more, and else not at all.
pub crd_added_lem :
    (c : CrdWatch) (name : String)
    → IsConsistent c
    → c.initialized ≡ true
    → c.all_crds_added_handler ≡ true
    → let (c', calls) = crd_added c name in
      IsConsistent c'
      × (calls ≡ (
          if not (is_empty c.missing_crds) && is_empty c'.missing_crds
          then all_crds_added ∷ []
          else []))
unfolding crd_added
crd_added_lem c name i ready set =
    (crd_added-IsConsistent c name i, ground (arith, length-remove name c.missing_crds i.distinct))

-- A deleted definition keeps the watch consistent. In an initialised watch with a handler, the handler
-- is called once if no required definition was missing and one is now, and else not at all.
pub crd_deleted_lem :
    (c : CrdWatch) (name : String)
    → IsConsistent c
    → c.initialized ≡ true
    → c.some_crd_removed_handler ≡ true
    → let (c', calls) = crd_deleted c name in
      IsConsistent c'
      × (calls ≡ (
          if is_empty c.missing_crds && not (is_empty c'.missing_crds)
          then some_crd_removed ∷ []
          else []))
unfolding crd_deleted
crd_deleted_lem c name i ready set =
    (crd_deleted-IsConsistent c name i, ground (arith, add-ne-nil name c.missing_crds))
