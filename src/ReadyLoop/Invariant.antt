-- ===== src/ReadyLoop/Invariant.antt =====
-- The ordering loop of crates/orkia-changesets/src/lib.rs: its invariant.
use boop_orkia_cli.Prelude.{
  ℕ, zero, suc, ◌≤◌, ◌≡◌, refl, subst, true, false, ◌&&◌, ◌||◌, Option, none, some, List, [], ◌∷◌,
  ◌++◌, arith, length, is_empty, all, Ord, true_or_left,
}
use boop_orkia_cli.Prelude.Sets.{
  BTreeSet, contains, insert, remove, IsSorted, IsDistinct, contains-head, contains-tail,
  contains-insert, contains-remove, contains-append, all→contains, contains→all,
}
use boop_orkia_cli.Prelude.Sets.Sorted.{remove-IsSorted}
use boop_orkia_cli.ReadyLoop.{
  Progress, start, complete_one, complete_ready, ready, ready_loop, ready_order, unless_empty,
  unless_empty_ind, ready_smaller,
}

module _ {ℓ} {K : Type ℓ} ⦃o : Ord K⦄ where
  -- Each key's dependencies stand among `seen` or before the key.
  abbrev pub IsTopological : (K → List K) → List K → List K → Type 0
  IsTopological deps seen [] = Unit
  IsTopological deps seen (x ∷ xs) =
      (all (λ d. contains d seen) (deps x) ≡ true) × IsTopological deps (x ∷ seen) xs

  pub IsTopological-snoc :
      (deps : K → List K) (seen xs : List K) (x : K)
      → IsTopological deps seen xs
      → ((d : K) → contains d (deps x) ≡ true → (contains d xs || contains d seen) ≡ true)
      → IsTopological deps seen (xs ++ x ∷ [])
  unfolding contains
  IsTopological-snoc deps seen [] x h met = (contains→all _ (deps x) met, tt)
  IsTopological-snoc deps seen (y ∷ ys) x h met =
      (h.0, IsTopological-snoc deps (y ∷ seen) ys x h.1 (λ d m. ground (arith, met d m)))

  IsDistinct-snoc :
      (xs : List K) (x : K) → IsDistinct xs → contains x xs ≡ false → IsDistinct (xs ++ x ∷ [])
  unfolding contains
  IsDistinct-snoc [] x d h = (refl, tt)
  IsDistinct-snoc (y ∷ ys) x d h = (
    ground (arith, contains-append y ys (x ∷ []), o.eqb_iff y x, o.eqb_iff x y, d.0),
    IsDistinct-snoc ys x d.1 (ground arith),
  )

  module _ (deps : K → List K) (ids : BTreeSet K) where
    pub record Inv (s : Progress K) : Type ℓ where
      pub topological : IsTopological deps [] s.ordered
      pub distinct : IsDistinct s.ordered
      pub sorted : IsSorted s.remaining
      pub same : (k : K) → contains k s.complete ≡ contains k s.ordered
      pub cover : (k : K) → contains k ids ≡ (contains k s.ordered || contains k s.remaining)
      pub apart : (k : K) → contains k s.remaining ≡ true → contains k s.ordered ≡ false

    pub start-Inv : IsSorted ids → Inv (start ids)
    unfolding contains
    start-Inv h = record {
      topological = tt;
      distinct = tt;
      sorted = h;
      same = λ k. refl;
      cover = λ k. refl;
      apart = λ k m. refl;
    }

    cover-complete_one :
        (s : Progress K) (id k : K)
        → Inv s
        → contains id s.remaining ≡ true
        → contains k ids ≡ (contains k (s.ordered ++ id ∷ []) || contains k (remove id s.remaining))
    unfolding contains
    cover-complete_one s id k v m = ground (
      arith,
      v.cover k,
      contains-append k s.ordered (id ∷ []),
      contains-remove k id s.remaining,
      o.eqb_iff k id,
    )

    apart-complete_one :
        (s : Progress K) (id k : K)
        → Inv s
        → contains k (remove id s.remaining) ≡ true
        → contains k (s.ordered ++ id ∷ []) ≡ false
    unfolding contains
    apart-complete_one s id k v m =
        ground (
          arith,
          v.apart k,
          contains-append k s.ordered (id ∷ []),
          contains-remove k id s.remaining,
        )

    same-complete_one :
        (s : Progress K) (id k : K)
        → Inv s
        → contains k (insert id s.complete) ≡ contains k (s.ordered ++ id ∷ [])
    unfolding contains
    same-complete_one s id k v =
        ground
          (arith, contains-insert k id s.complete, contains-append k s.ordered (id ∷ []), v.same k)

    complete_one-Inv :
        (s : Progress K) (id : K)
        → Inv s
        → contains id s.remaining ≡ true
        → all (λ d. contains d s.complete) (deps id) ≡ true
        → Inv (complete_one s id)
    complete_one-Inv s id v m met = record {
      topological = IsTopological-snoc deps [] s.ordered id v.topological λ d dm.
          true_or_left (contains d s.ordered) (contains d [])
            (rw (← v.same d) (all→contains _ (deps id) met d dm));
      distinct = IsDistinct-snoc s.ordered id v.distinct (v.apart id m);
      sorted = remove-IsSorted id s.remaining v.sorted;
      same = λ k. same-complete_one s id k v;
      cover = λ k. cover-complete_one s id k v m;
      apart = λ k km. apart-complete_one s id k v km;
    }

    -- A key that was ready stays ready while other keys are completed.
    met-complete_one :
        (s : Progress K) (id k : K)
        → all (λ d. contains d s.complete) (deps k) ≡ true
        → all (λ d. contains d (insert id s.complete)) (deps k) ≡ true
    met-complete_one s id k met =
        contains→all _ (deps k)
          λ d dm. ground (arith, contains-insert d id s.complete, all→contains _ (deps k) met d dm)

    pub complete_ready-Inv :
        (s : Progress K) (found : List K)
        → Inv s
        → IsDistinct found
        → ((k : K) → contains k found ≡ true → contains k s.remaining ≡ true)
        → ((k : K) → contains k found ≡ true → all (λ d. contains d s.complete) (deps k) ≡ true)
        → Inv (complete_ready s found)
    unfolding complete_ready
    complete_ready-Inv s [] v dis m met = v
    complete_ready-Inv s (id ∷ found) v dis m met =
        complete_ready-Inv (complete_one s id) found
          (complete_one-Inv s id v (m id (contains-head id found))
            (met id (contains-head id found)))
          dis.1
          (λ k km. ground (
            arith,
            contains-remove k id s.remaining,
            m k (contains-tail k id found km),
            o.eqb_iff k id,
            dis.0,
          ))
          (λ k km. met-complete_one s id k (met k (contains-tail k id found km)))

    -- What the loop is given and what it returns.
    pub record IsOrder (l : List K) : Type ℓ where
      pub topological : IsTopological deps [] l
      pub distinct : IsDistinct l
      pub cover : (k : K) → contains k l ≡ contains k ids

    -- At the end nothing remains.
    Inv→IsOrder : (s : Progress K) → Inv s → is_empty s.remaining ≡ true → IsOrder s.ordered
    Inv→IsOrder s v e = record {
      topological = v.topological;
      distinct = v.distinct;
      cover = λ k. nothing_remains s.remaining e k (v.cover k);
    }
      where
        nothing_remains :
            (r : List K)
            → is_empty r ≡ true
            → (k : K) → contains k ids ≡ (contains k s.ordered || contains k r)
            → contains k s.ordered ≡ contains k ids
        nothing_remains [] h k c = unfold contains in ground (arith, c)
        nothing_remains (x ∷ r) h k c = cc

  -- What the selection of ready keys does on sets of keys: it is the keys whose dependencies are
  -- complete.
  pub record SelectsReady (deps : K → List K) (ids : BTreeSet K)
      (pick : BTreeSet K → BTreeSet K → List K) : Type ℓ where
    pub once : (r c : BTreeSet K) → IsSorted r → IsDistinct (pick r c)
    pub exactly :
        (r c : BTreeSet K)
        → ((k : K) → contains k r ≡ true → contains k ids ≡ true)
        → (k : K) → contains k (pick r c) ≡ (contains k r && all (λ d. contains d c) (deps k))

module _ {ℓ} {K : Type ℓ} ⦃o : Ord K⦄ (pick : BTreeSet K → BTreeSet K → List K)
    (pick_remaining : (r c : BTreeSet K) (id : K)
      → contains id (pick r c) ≡ true
      → contains id r ≡ true)
    (deps : K → List K) (ids : BTreeSet K) (selects : SelectsReady deps ids pick) where
  pub Inv-remaining :
      (s : Progress K)
      → Inv deps ids s
      → (k : K) → contains k s.remaining ≡ true
      → contains k ids ≡ true
  Inv-remaining s v k m = ground (arith, v.cover k)

  pub round-Inv :
      (s : Progress K)
      → Inv deps ids s
      → Inv deps ids (complete_ready s (ready pick pick_remaining s))
  round-Inv s v =
      complete_ready-Inv deps ids s _ v (selects.once s.remaining s.complete v.sorted)
        (pick_remaining s.remaining s.complete)
        (λ k m. ground (arith, selects.exactly s.remaining s.complete (Inv-remaining s v) k))

  -- A rule for the loop: a state that is empty, a state that is stuck, and the rounds between.
  pub ready_loop_rule {μ} :
      (Q : Option (List K) → Type μ)
      → ((s : Progress K) → Inv deps ids s → is_empty s.remaining ≡ true → Q (some s.ordered))
      → ((s : Progress K)
          → Inv deps ids s
          → is_empty s.remaining ≡ false
          → is_empty (ready pick pick_remaining s) ≡ true
          → Q none)
      → (bound : ℕ) (s : Progress K) (h : length s.remaining ≤ bound) → Inv deps ids s
      → Q (ready_loop pick pick_remaining bound s h)
  unfolding ready_loop
  ready_loop_rule Q finish stuck zero s h v = finish s v (no_more s.remaining h)
    where
      no_more : (r : List K) → length r ≤ 0 → is_empty r ≡ true
      no_more [] h = refl
      no_more (x ∷ r) h = absurd (omega arith)
  ready_loop_rule Q finish stuck (suc bound) s h v =
      (elim (is_empty s.remaining)
          as (λ b.
            is_empty s.remaining ≡ b
            → Q (elim b [
              | true ↦ some s.ordered
              | false ↦ unless_empty (is_empty (ready pick pick_remaining s)) refl λ found.
                  ready_loop pick pick_remaining bound
                    (complete_ready s (ready pick pick_remaining s))
                    (ready_smaller pick pick_remaining bound s h found)
            ])) [
              | true ↦ λ e. finish s v e
              | false ↦ λ e.
                  unless_empty_ind Q (is_empty (ready pick pick_remaining s)) refl (stuck s v e)
                    (λ found. ready_loop_rule Q finish stuck bound _ _ (round-Inv s v))
            ])
        refl

  abbrev OnSome : (List K → Type ℓ) → Option (List K) → Type ℓ
  OnSome R none = Unit
  OnSome R (some l) = R l

  pub ready_order-IsOrder :
      IsSorted ids
      → (l : List K) → ready_order pick pick_remaining ids ≡ some l
      → IsOrder deps ids l
  unfolding ready_order
  ready_order-IsOrder h l e = subst (OnSome (IsOrder deps ids)) e (
      ready_loop_rule (OnSome (IsOrder deps ids)) (Inv→IsOrder deps ids) (λ _ _ _ _. tt)
        (length ids) (start ids) _ (start-Inv deps ids h))
