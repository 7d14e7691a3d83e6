-- ===== src/Model/Json/Order.antt =====
-- crates/orkia-model/src/lib.rs: canonical JSON and the order of the fields of an object.
use boop_orkia_cli.Prelude.{
  ◌≡◌, refl, ap, ◌∙◌, Bool, true, false, List, [], ◌∷◌, arith, nat_ord, list_ord, inl, inr, Ord,
  ◌==◌, Bool-cases, ==→≡,
}
use boop_orkia_cli.Prelude.Sets.{sort, place}
use boop_orkia_cli.Prelude.Maps.{keys, lookup}
use boop_orkia_cli.Prelude.Text.{Text}
use boop_orkia_cli.Errors.{Result}
use boop_orkia_cli.Model.Ids.{Bytes}
use boop_orkia_cli.Model.Json.{
  Json, Items, Fields, array, object, nil, item, end, field, write_entries, write_sorted,
  write_canonical_json, write_items, write_values,
}

-- The same document: fields with different keys may be swapped, at any depth.
mutual
  pub data IsReordered : Json → Json → Type 0 where
    same : (v : Json) → IsReordered v v
    array_items : {xs ys : Items} → AreReordered xs ys → IsReordered (array xs) (array ys)
    object_fields : {fs gs : Fields} → IsRearranged fs gs → IsReordered (object fs) (object gs)

  pub data AreReordered : Items → Items → Type 0 where
    no_items : AreReordered nil nil
    each :
        {v w : Json} {xs ys : Items}
        → IsReordered v w
        → AreReordered xs ys
        → AreReordered (item v xs) (item w ys)

  pub data IsRearranged : Fields → Fields → Type 0 where
    ended : IsRearranged end end
    kept :
        {k : Text} {v w : Json} {fs gs : Fields}
        → IsReordered v w
        → IsRearranged fs gs
        → IsRearranged (field k v fs) (field k w gs)
    swapped :
        {j k : Text} {v w : Json} {fs : Fields}
        → (j == k) ≡ false
        → IsRearranged (field j v (field k w fs)) (field k w (field j v fs))
    chained : {fs gs hs : Fields} → IsRearranged fs gs → IsRearranged gs hs → IsRearranged fs hs

module _ {ℓ} {A : Type ℓ} ⦃o : Ord A⦄ where
  place-place : (a b : A) (l : List A) → place a (place b l) ≡ place b (place a l)
  unfolding place
  place-place a b [] = elim (Bool-cases (a == b)) [
    | inl e ↦ rw (==→≡ a b e) refl
    | inr n ↦ ground (
      arith,
      o.less_total a b,
      o.less_total b a,
      o.less_trans a b a,
      o.less_irrefl a,
      o.eqb_iff b a,
      o.eqb_iff a b,
    )
  ]
  place-place a b (x ∷ l) = ground (
    arith,
    place-place a b l,
    o.less_total a b,
    o.less_trans a b x,
    o.less_trans b a x,
    o.less_trans x a b,
    o.less_trans x b a,
    o.less_trans a b a,
    o.less_irrefl a,
    o.eqb_iff a b,
    o.less_total x a,
    o.less_total x b,
  )

  lookup-swap {κ} :
      {V : Type κ} (i j k : A) (v w : V) (m : List (A × V))
      → (j == k) ≡ false
      → lookup i ((j, v) ∷ (k, w) ∷ m) ≡ lookup i ((k, w) ∷ (j, v) ∷ m)
  unfolding lookup
  lookup-swap i j k v w m h = ground (arith, o.eqb_iff i j, o.eqb_iff i k, o.eqb_iff j k)

module _ (encode_string : Text → Result Bytes) where
  -- Only what is found under each key is written.
  write_entries-lookup :
      (first : Bool) (m n : List (Text × Result Bytes))
      → ((k : Text) → lookup k m ≡ lookup k n)
      → (ks : List Text)
      → write_entries encode_string first m ks ≡ write_entries encode_string first n ks
  unfolding write_entries
  write_entries-lookup first m n h [] = refl
  write_entries-lookup first m n h (k ∷ ks) =
      rw (write_entries, h k, write_entries-lookup false m n h ks) refl

  mutual
    unfolding write_canonical_json write_sorted lookup sort

    write-reordered :
        {v w : Json}
        → IsReordered v w
        → write_canonical_json encode_string v ≡ write_canonical_json encode_string w
    write-reordered (same v) = refl
    write-reordered (array_items {xs} {ys} h) = rw (write_items-reordered true h) refl
    write-reordered (object_fields {fs} {gs} h) =
        rw
          (
            keys-reordered h,
            write_entries-lookup true (write_values encode_string fs)
                (write_values encode_string gs) (λ k. lookup-reordered h k),
          )
          refl

    write_items-reordered :
        (first : Bool) {xs ys : Items}
        → AreReordered xs ys
        → write_items encode_string first xs ≡ write_items encode_string first ys
    write_items-reordered first no_items = refl
    write_items-reordered first (each h t) =
        rw (write-reordered h, write_items-reordered false t) refl

    keys-reordered :
        {fs gs : Fields}
        → IsRearranged fs gs
        → sort (keys (write_values encode_string fs)) ≡ sort (keys (write_values encode_string gs))
    keys-reordered ended = refl
    keys-reordered (kept {k} h t) = ap (place k) (keys-reordered t)
    keys-reordered (swapped {j} {k} {v} {w} {fs} h) =
        place-place j k (sort (keys (write_values encode_string fs)))
    keys-reordered (chained h t) = keys-reordered h ∙ keys-reordered t

    lookup-reordered :
        {fs gs : Fields}
        → IsRearranged fs gs
        → (i : Text)
        → lookup i (write_values encode_string fs) ≡ lookup i (write_values encode_string gs)
    lookup-reordered ended i = refl
    lookup-reordered (kept h t) i = rw (write-reordered h, lookup-reordered t i) refl
    lookup-reordered (swapped {j} {k} {v} {w} {fs} h) i =
        lookup-swap i j k _ _ (write_values encode_string fs) h
    lookup-reordered (chained h t) i = lookup-reordered h i ∙ lookup-reordered t i

  -- The canonical JSON of a document is the same bytes, or the same error, whatever order the fields
  -- of its objects are given in, at any depth.
  pub write_canonical_json-reordered :
      {v w : Json}
      → IsReordered v w
      → write_canonical_json encode_string v ≡ write_canonical_json encode_string w
  write_canonical_json-reordered h = write-reordered h
