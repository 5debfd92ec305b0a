-- ===== src/SspController/Watched.antt =====
-- Which watches the controller registers.
use ssp_operator.Base.{
  String, ◌≡◌, ◌↔◌, refl, sym, ◌∙◌, subst, arith, Bool, true, false, ◌&&◌, ◌||◌, not, Option, none,
  some, List, [], ◌∷◌, ◌++◌, inl, inr, Eq, ◌==◌, string_eq, if◌then◌else◌, Among, Bool-cases,
  Option-cases,
}
use ssp_operator.Base.Keyed.{Keyed, insert-Keyed}
use ssp_operator.Base.Dict.{Dict, lookup, insert, lookup-insert}
use ssp_operator.SspController.Watches.{
  WatchType, Watching, Watch, add_watch_type, add_watch_types, watched_types, watches_of,
  watch_resources,
}

module _ {K : Type 0} ⦃e : Eq K⦄ where
  -- All the types that are to be watched, of every operand in turn.
  abbrev pub all_types : (Watching K → List (WatchType K)) → List (Watching K) → List (WatchType K)
  all_types watch_types_func [] = []
  all_types watch_types_func (operand ∷ operands) =
      watch_types_func operand ++ all_types watch_types_func operands

  -- Whether some entry of a type asks for the full object.
  abbrev pub any_full : K → List (WatchType K) → Bool
  any_full k [] = false
  any_full k (t ∷ types) = (k == t.object_type && t.watch_full_object) || any_full k types

  -- The last entry of a type.
  abbrev pub last_type : K → List (WatchType K) → Option (WatchType K)
  last_type k [] = none
  last_type k (t ∷ types) = elim (last_type k types) [
    | some u ↦ some u
    | none ↦ if k == t.object_type then some t else none
  ]

  add_watch_types-append :
      (watched : Dict K (WatchType K)) (ts us : List (WatchType K))
      → add_watch_types watched (ts ++ us) ≡ add_watch_types (add_watch_types watched ts) us
  unfolding add_watch_types
  add_watch_types-append watched [] us = refl
  add_watch_types-append watched (t ∷ ts) us =
      add_watch_types-append (add_watch_type watched t) ts us

  watched_types-all_types :
      (watch_types_func : Watching K → List (WatchType K)) (watched : Dict K (WatchType K))
      (operands : List (Watching K))
      → watched_types watch_types_func watched operands
        ≡ add_watch_types watched (all_types watch_types_func operands)
  unfolding watched_types add_watch_types
  watched_types-all_types f watched [] = refl
  watched_types-all_types f watched (operand ∷ operands) =
      watched_types-all_types f (add_watch_types watched (f operand)) operands
      ∙ sym (add_watch_types-append watched (f operand) (all_types f operands))

  -- An entry in the map as it is after all the types.
  abbrev merged : K → List (WatchType K) → Option (WatchType K) → Option (WatchType K)
  merged k types before = elim (last_type k types) [
    | none ↦ before
    | some t ↦ some (record t {
      watch_full_object =
          any_full k types || elim before [ none ↦ false | some wt ↦ wt.watch_full_object ];
    })
  ]

  lookup-add_watch_type :
      (k : K) (watched : Dict K (WatchType K)) (t : WatchType K)
      → lookup k (add_watch_type watched t) ≡ merged k (t ∷ []) (lookup k watched)
  unfolding add_watch_type
  lookup-add_watch_type k watched t = elim (Option-cases (lookup t.object_type watched)) [
    | inl n ↦ ground (arith, n, lookup-insert k t.object_type t watched)
    | inr (wt, n) ↦
        let u = record t { watch_full_object = t.watch_full_object || wt.watch_full_object } in
        ground (arith, n, lookup-insert k t.object_type u watched)
  ]

  any_full-none :
      (k : K) (types : List (WatchType K)) → last_type k types ≡ none → any_full k types ≡ false
  any_full-none k [] p = refl
  any_full-none k (t ∷ types) p = elim (Option-cases (last_type k types)) [
    | inl n ↦ ground (arith, p, n, any_full-none k types n)
    | inr (u, n) ↦ absurd (ground (arith, p, n))
  ]

  lookup-add_watch_types :
      (k : K) (types : List (WatchType K)) (watched : Dict K (WatchType K))
      → lookup k (add_watch_types watched types) ≡ merged k types (lookup k watched)
  unfolding add_watch_types
  lookup-add_watch_types k [] watched = refl
  lookup-add_watch_types k (t ∷ types) watched =
      let later = lookup-add_watch_types k types (add_watch_type watched t) in
      let first = lookup-add_watch_type k watched t in
      elim (Option-cases (last_type k types)) [
        | inl n ↦ ground (arith, later, first, n, any_full-none k types n)
        | inr (u, n) ↦ ground (arith, later, first, n)
      ]

  abbrev TypeKeyed : Dict K (WatchType K) → Type 0
  TypeKeyed = Keyed (λ t. t.object_type)

  add_watch_types-Keyed :
      (types : List (WatchType K)) (watched : Dict K (WatchType K))
      → TypeKeyed watched
      → TypeKeyed (add_watch_types watched types)
  unfolding add_watch_types add_watch_type
  add_watch_types-Keyed [] watched k = k
  add_watch_types-Keyed (t ∷ types) watched k = elim (Option-cases (lookup t.object_type watched)) [
    | inl n ↦
        add_watch_types-Keyed types (add_watch_type watched t)
          (subst TypeKeyed (ground (arith, n)) (insert-Keyed (λ u. u.object_type) t watched k))
    | inr (wt, n) ↦
        let u : WatchType K = record t {
          watch_full_object = t.watch_full_object || wt.watch_full_object;
        } in
        add_watch_types-Keyed types (add_watch_type watched t) (
          subst TypeKeyed {x = insert t.object_type u watched} (ground (arith, n))
            (insert-Keyed (λ v. v.object_type) u watched k))
  ]

  -- A type is watched as the entry of the map says.
  Among-watches_of :
      (crd_exists : String → Bool) (d : Dict K (WatchType K)) (w : Watch K)
      → TypeKeyed d
      → Among w (watches_of crd_exists d)
      → (t : WatchType K) × (lookup w.watched_type d ≡ some t)
        × ((t.crd == "" || crd_exists t.crd) ≡ true)
        × (w.only_relevant_changes ≡ not t.watch_full_object)
  unfolding watches_of lookup
  Among-watches_of crd_exists [] w k m = absurd m
  Among-watches_of crd_exists ((key, t) ∷ d) w (p, n, k) m =
      let rest = watches_of crd_exists d in
      let one : Watch K = record {
        watched_type = t.object_type;
        only_relevant_changes = not t.watch_full_object;
      } in
      let later : Among w rest
          → (u : WatchType K) × (lookup w.watched_type ((key, t) ∷ d) ≡ some u)
            × ((u.crd == "" || crd_exists u.crd) ≡ true)
            × (w.only_relevant_changes ≡ not u.watch_full_object) =
        λ h.
          let (u, l, c, r) = Among-watches_of crd_exists d w k h in
          (u, ground (arith, n, l), c, r) in
      elim (Bool-cases (t.crd == "" || crd_exists t.crd)) [
        | inr c ↦ later (subst (Among w) {y = rest} (ground (arith, c)) m)
        | inl c ↦ elim (subst (Among w) {y = one ∷ rest} (ground (arith, c)) m) [
          | inl e ↦ (t, ground (arith, p, e), c, ground (arith, e))
          | inr h ↦ later h
        ]
      ]

  watches_of-Among :
      (crd_exists : String → Bool) (d : Dict K (WatchType K)) (key : K) (t : WatchType K)
      → TypeKeyed d
      → lookup key d ≡ some t
      → (t.crd == "" || crd_exists t.crd) ≡ true
      → Among
          (record { watched_type = key; only_relevant_changes = not t.watch_full_object })
          (watches_of crd_exists d)
  unfolding watches_of lookup
  watches_of-Among crd_exists [] key t k p c = absurd (ground arith)
  watches_of-Among crd_exists ((other, u) ∷ d) key t (q, n, k) p c =
      let rest = watches_of crd_exists d in
      let w : Watch K = record {
        watched_type = key;
        only_relevant_changes = not t.watch_full_object;
      } in
      let one : Watch K = record {
        watched_type = u.object_type;
        only_relevant_changes = not u.watch_full_object;
      } in
      elim (Bool-cases (key == other)) [
        | inl e ↦
            let same : w ≡ one = ground (arith, p, q, e) in
            subst (Among w) {x = one ∷ rest} (ground (arith, p, q, c, e)) (inl same)
        | inr e ↦
            let m = watches_of-Among crd_exists d key t k (ground (arith, p, e)) c in
            elim (Bool-cases (u.crd == "" || crd_exists u.crd)) [
              | inr f ↦ subst (Among w) {x = rest} (ground (arith, f)) m
              | inl f ↦ subst (Among w) {x = one ∷ rest} (ground (arith, f)) (inr m)
            ]
      ]

  -- A watch is registered for a type exactly if some operand wants to watch the type and the definition that
  -- the last such wish names, if it names one, exists. It reports every change if any of the wishes asks for
  -- the full object, and only relevant changes otherwise.
  pub watch_resources_lem :
      (crd_exists : String → Bool) (operands : List (Watching K))
      (watch_types_func : Watching K → List (WatchType K)) (w : Watch K)
      → let types = all_types watch_types_func operands in
        Among w (watch_resources crd_exists operands watch_types_func) ↔ (
          (t : WatchType K) × (last_type w.watched_type types ≡ some t)
          × ((t.crd == "" || crd_exists t.crd) ≡ true)
          × (w.only_relevant_changes ≡ not (any_full w.watched_type types)))
  unfolding watch_resources lookup
  watch_resources_lem crd_exists operands watch_types_func w =
      let types = all_types watch_types_func operands in
      let d = add_watch_types [] types in
      let k = add_watch_types-Keyed types [] tt in
      let l = lookup-add_watch_types w.watched_type types [] in
      let same = watched_types-all_types watch_types_func [] operands in
      (
        λ m.
            let (t, p, c, r) =
              Among-watches_of crd_exists d w k
                (subst (λ x. Among w (watches_of crd_exists x)) same m) in
            elim (Option-cases (last_type w.watched_type types)) [
              | inl n ↦ absurd (ground (arith, l, n, p))
              | inr (u, n) ↦ (u, n, ground (arith, l, n, p, c), ground (arith, l, n, p, r))
            ],
        λ (t, p, c, r).
            let u : WatchType K = record t {
              watch_full_object = any_full w.watched_type types || false;
            } in
            let m = watches_of-Among crd_exists d w.watched_type u k (ground (arith, l, p)) c in
            let is : w ≡ record {
              watched_type = w.watched_type;
              only_relevant_changes = not u.watch_full_object;
            } =
              ground (arith, r) in
            subst (λ x. Among w (watches_of crd_exists x)) (sym same)
              (subst (λ x. Among x (watches_of crd_exists d)) (sym is) m),
      )
