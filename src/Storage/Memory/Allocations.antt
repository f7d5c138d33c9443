-- ===== src/Storage/Memory/Allocations.antt =====
-- `allocateIndex` of storage-memory.ts, and the key of an allocation.
use Prim.Native.Char.{Char, code}
use Prim.Native.String
use Prim.Native.String.{count}
use text.Mathlib.TextLemmas.{
  nil-append, cons-append, head-eq_of_cons-eq, tail-eq_of_cons-eq, append_cancel_right, append_inj,
  length-append as text_length-append,
}
use mathlib.Core.Path.{ap₂}
use vcalm_status_service.Common.{
  ℕ, ◌+◌, String, ◌≡◌, ◌≢◌, refl, sym, ap, false, none, some, List, [], arith, ◌==◌, string_eq,
  nat_eq, eq_iff, eq_refl, if◌then◌else◌, contains-add, length-add, contains, get_or, ◌∙◌,
  Option-cases, Bool-cases, inl, inr,
}
use vcalm_status_service.Common.Dict
use vcalm_status_service.Common.Dict.{get-put}
use vcalm_status_service.Storage.{
  Date, StatusListRecord, StatusPurpose, revocation, suspension, NewIndexAllocation,
  AllocationQuery,
}
use vcalm_status_service.Storage.Contract.{
  NoNul, Granted, Allocates, stamped, no_list, has_index, taken,
}
use vcalm_status_service.Storage.Memory.{
  MemoryStorage, memory_storage, granted, allocation_key, used, purpose_text, allocate_index,
  get_status_list, get_allocation, is_index_allocated, count_allocations,
}

abbrev nul : Char
nul = "\0"

nul-append : (x : String) → String.◌++◌ "\0" x ≡ String.◌∷◌ nul x
nul-append x = rw cons-append (rw nil-append)

-- The part before the first NUL is determined.
split_at_nul :
    (a b x y : String)
    → NoNul a
    → NoNul b
    → String.◌++◌ a (String.◌++◌ "\0" x) ≡ String.◌++◌ b (String.◌++◌ "\0" y)
    → (a ≡ b) × (x ≡ y)
split_at_nul String.[] String.[] x y ha hb e =
    (refl, tail-eq_of_cons-eq (simp (nil-append, nul-append) at e))
split_at_nul String.[] (String.◌∷◌ d b) x y ha hb e =
    absurd
      (hb.0 (sym (ap code (head-eq_of_cons-eq (simp (nil-append, cons-append, nul-append) at e)))))
split_at_nul (String.◌∷◌ c a) String.[] x y ha hb e =
    absurd (ha.0 (ap code (head-eq_of_cons-eq (simp (nil-append, cons-append, nul-append) at e))))
split_at_nul (String.◌∷◌ c a) (String.◌∷◌ d b) x y ha hb e =
    let e' : String.◌∷◌ c (String.◌++◌ a (String.◌++◌ "\0" x))
        ≡ String.◌∷◌ d (String.◌++◌ b (String.◌++◌ "\0" y)) =
      sym (cons-append c a _) ∙ e ∙ cons-append d b _ in
    let (same, rest) = split_at_nul a b x y ha.1 hb.1 (tail-eq_of_cons-eq e') in
    (ap₂ String.◌∷◌ (head-eq_of_cons-eq e') same, rest)

different_ends :
    (c d x y : String) → String.◌++◌ c x ≡ String.◌++◌ d y → count x ≡ count y → x ≢ y → ⊥
different_ends c d x y e same ne =
    let total : count c + count x ≡ count d + count y =
      sym (text_length-append c x) ∙ ap count e ∙ text_length-append d y in
    ne (append_inj e (omega arith)).1

-- The last part is one of two texts of the same length.
split_at_purpose :
    (c d : String) (p q : StatusPurpose)
    → String.◌++◌ c (String.◌++◌ "\0" (purpose_text p))
      ≡ String.◌++◌ d (String.◌++◌ "\0" (purpose_text q))
    → (c ≡ d) × (p ≡ q)
split_at_purpose c d revocation revocation e = (append_cancel_right c d _ e, refl)
split_at_purpose c d suspension suspension e = (append_cancel_right c d _ e, refl)
split_at_purpose c d revocation suspension e =
    absurd (different_ends c d "\0revocation" "\0suspension" e refl (λ p. cc ((eq_iff _ _).1 p)))
split_at_purpose c d suspension revocation e =
    absurd (different_ends c d "\0suspension" "\0revocation" e refl (λ p. cc ((eq_iff _ _).1 p)))

-- Two queries whose tenant ids hold no NUL have the same allocation key only if they are the same
-- query.
pub allocation_key_injective :
    (q r : AllocationQuery)
    → NoNul (q.tenant_id)
    → NoNul (r.tenant_id)
    → allocation_key q ≡ allocation_key r
    → q ≡ r
allocation_key_injective q r hq hr e =
    let (tenants, rest) = split_at_nul (q.tenant_id) (r.tenant_id) _ _ hq hr e in
    let (credentials, purposes) =
      split_at_purpose (q.credential_id) (r.credential_id) (q.status_purpose) (r.status_purpose)
        rest in
    ground arith

used-put :
    (id j : String) (xs : List ℕ) (s : MemoryStorage)
    → get_or (Dict.get j (Dict.put id xs s.used_indexes)) [] ≡ (if id == j then xs else used j s)
used-put id j xs s = rw (get-put id j xs s.used_indexes) (ground arith)

-- The effect of a granted allocation on every read.
module _ (now : Date) (a : NewIndexAllocation) (s : MemoryStorage) where
  other_key :
      (q : AllocationQuery)
      → NoNul (q.tenant_id)
      → NoNul (a.tenant_id)
      → q ≢ a.query
      → allocation_key a.query ≢ allocation_key q
  other_key q hq ha ne e = ne (allocation_key_injective q a.query hq ha (sym e))

  granted-Granted :
      (list : StatusListRecord)
      → Dict.get (a.list_id) s.lists ≡ some list
      → Dict.get (allocation_key a.query) s.allocations ≡ none
      → contains (a.status_list_index) (used (a.list_id) s) ≡ false
      → Granted memory_storage now a s (granted now a s)
  unfolding granted get_status_list get_allocation is_index_allocated count_allocations
  granted-Granted list known fresh free = record {
    known = rw known;
    fresh = fresh;
    free = free;
    lists = record { list = λ id. refl };
    allocation = rw (get-put (allocation_key a.query), eq_refl (allocation_key a.query));
    others = λ q hq ha ne. ground (
      arith,
      get-put (allocation_key a.query) (allocation_key q) (stamped now a) s.allocations,
      eq_iff (allocation_key a.query) (allocation_key q),
      other_key q hq ha ne,
    );
    allocated = λ id i. rw used-put (
        ground (
          arith,
          contains-add (a.status_list_index) i (used (a.list_id) s),
          eq_iff (a.list_id) id,
        ));
    count = λ id. rw used-put (
        ground (
          arith,
          length-add (a.status_list_index) (used (a.list_id) s) free,
          eq_iff (a.list_id) id,
        ));
  }

module _ (now : Date) (a : NewIndexAllocation) (s : MemoryStorage) where
  -- The in-memory `allocate_index` either grants: the list exists, the credential had no index for
  -- the purpose and the index was free, and afterwards the reads show that one allocation more and
  -- nothing else changed; or it refuses for one of the three reasons, that one holds, and the state
  -- is as it was.
  pub allocate_index-Allocates : Allocates memory_storage now a s (allocate_index now a s)
  unfolding allocate_index get_status_list get_allocation is_index_allocated count_allocations
  allocate_index-Allocates = elim (Option-cases (Dict.get (a.list_id) s.lists)) [
    | inl missing ↦ rw missing (refl, no_list missing)
    | inr (list, known) ↦ elim (Option-cases (Dict.get (allocation_key a.query) s.allocations)) [
      | inr (old, e) ↦ rw (known, e) (refl, has_index (rw e))
      | inl fresh ↦ elim (Bool-cases (contains (a.status_list_index) (used (a.list_id) s))) [
        | inl e ↦ rw (known, fresh, e) (refl, taken e)
        | inr free ↦ rw (known, fresh, free) (refl, granted-Granted now a s list known fresh free)
      ]
    ]
  ]
