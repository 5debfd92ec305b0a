-- ===== src/SspController/Servers.antt =====
-- What the API server and the operands promise to the SSP controller. `stored` is the SSP object that the server
-- holds, if it holds one, and `Absent` says that an operand has no resources left.
use ssp_operator.Base.{
  ◌≡◌, ◌≢◌, refl, subst, sym, Bool, true, false, ◌&&◌, ◌||◌, Option, none, some, List, ◌⊎◌, inl,
  inr, string_eq, if◌then◌else◌, All,
}
use ssp_operator.Resources.Cleanup.{CleanupResult}
use ssp_operator.SspController.{is_empty}
use ssp_operator.SspController.Instance.{
  SspObject, contains_finalizer, finalizer_name, old_finalizer_name,
}
use ssp_operator.SspController.Reconcile.{ApiError, Server, Request, Operands, pending_count}

-- Whether an object has a finalizer of the operator.
abbrev pub has_finalizer : {C S : Type 0} → SspObject C S → Bool
has_finalizer s = contains_finalizer s finalizer_name || contains_finalizer s old_finalizer_name

-- A read yields what is stored, and a failed write changes nothing. A write of the object leaves its status
-- and deletion timestamp as they are, and removes an object that is being deleted with its last
-- finalizer. A write of the status leaves the rest as it is.
pub record IsServer {C S O : Type 0} (server : Server C S O) (stored : O → Option (SspObject C S))
    : Type 0 where
  pub get_found : (o : O) (s : SspObject C S) → server.get o ≡ inr s → stored o ≡ some s
  pub update_failed :
      (o o' : O) (s : SspObject C S) (e : ApiError)
      → server.update o s ≡ (inl e, o')
      → stored o' ≡ stored o
  pub updated :
      (o o' : O) (s s' : SspObject C S)
      → server.update o s ≡ (inr s', o')
      → (cur : SspObject C S) × (stored o ≡ some cur)
        × (s'.finalizers ≡ s.finalizers)
        × (s'.deleting ≡ cur.deleting)
        × (s'.status ≡ cur.status)
        × (stored o' ≡ (if s'.deleting && is_empty s'.finalizers then none else some s'))
  pub status_failed :
      (o o' : O) (s : SspObject C S) (e : ApiError)
      → server.update_status o s ≡ (inl e, o')
      → stored o' ≡ stored o
  pub status_updated :
      (o o' : O) (s s' : SspObject C S)
      → server.update_status o s ≡ (inr s', o')
      → (cur : SspObject C S) × (stored o ≡ some cur)
        × (s' ≡ record cur { status = s.status })
        × (stored o' ≡ some s')

-- An operand that reports every resource as deleted has none left.
pub record AreCleaned {C S T Ref I R : Type 0} (operands : Operands C S T Ref I R)
    (Absent : I → R → Type 0) : Type 0 where
  pub cleaned :
      (i : I) (request : Request C S) (r r' : R) (results : List (CleanupResult T Ref))
      → operands.cleanup_operand i request r ≡ (inr results, r')
      → pending_count results ≡ 0
      → Absent i r'

-- What anyone but the operator may do to the stored object: create it, edit it but for its status and the
-- operator's finalizers, ask for its deletion, and remove it by the last finalizer that is not the
-- operator's.
pub data Allowed {C S : Type 0} : Option (SspObject C S) → Option (SspObject C S) → Type 0 where
  created : (s : SspObject C S) → s.status.phase ≡ "" → Allowed none (some s)
  edited :
      (s s' : SspObject C S)
      → s'.status ≡ s.status
      → s'.deleting ≡ s.deleting
      → has_finalizer s' ≡ has_finalizer s
      → Allowed (some s) (some s')
  deletion_requested : (s : SspObject C S) → Allowed (some s) (some (record s { deleting = true }))
  removed : (s : SspObject C S) → has_finalizer s ≡ false → Allowed (some s) none
  nothing : (o : Option (SspObject C S)) → Allowed o o

-- The answer of a request, with the equation.
pub answer-cases {ℓ} :
    {A O : Type ℓ} (p : (ApiError ⊎ A) × O)
    → ((e : ApiError) × (o : O) × (p ≡ (inl e, o))) ⊎ ((a : A) × (o : O) × (p ≡ (inr a, o)))
answer-cases (inl e, o) = inl (e, o, refl)
answer-cases (inr a, o) = inr (a, o, refl)

module _ {C S O : Type 0} (stored : O → Option (SspObject C S)) where
  -- The stored object has a finalizer of the operator.
  abbrev pub Guarded : O → Type 0
  Guarded o = (s : SspObject C S) × (stored o ≡ some s) × (has_finalizer s ≡ true)

  -- A stored object that is not being deleted has a finalizer of the operator.
  abbrev pub Owned : O → Type 0
  Owned o = (s : SspObject C S) → stored o ≡ some s → s.deleting ≡ false → has_finalizer s ≡ true

  -- The same, if its phase is set.
  abbrev pub Initialized : O → Type 0
  Initialized o =
      (s : SspObject C S)
      → stored o ≡ some s
      → s.deleting ≡ false
      → s.status.phase ≢ ""
      → has_finalizer s ≡ true

  pub equal-Guarded : {o : O} (o' : O) → o ≡ o' → Guarded o' → Guarded o
  equal-Guarded o' e g = subst Guarded (sym e) g

abbrev pub AllAbsent : {I R : Type 0} → (I → R → Type 0) → List (I × R) → Type 0
AllAbsent Absent = All (λ (i, r). Absent i r)
