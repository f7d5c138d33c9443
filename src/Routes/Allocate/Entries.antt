-- ===== src/Routes/Allocate/Entries.antt =====
-- The entry that service/src/routes/allocate.ts attaches to a credential.
use vcalm_status_service.Common.{
  String, ◌≡◌, ◌≢◌, refl, ap, sym, ◌∙◌, Option, none, some, arith, ◌==◌, string_eq, if◌then◌else◌,
  eq_iff, beq_ne,
}
use vcalm_status_service.Json.{
  Json, null, bool, num, str, arr, obj, Fields, field, end, Items, nil, cons, member, with_member,
  push,
}
use vcalm_status_service.Routes.Allocate.{with_status_entry, joined}

member-with_member :
    (key : String) (v : Json) (fs : Fields) (k : String)
    → member k (with_member key v fs) ≡ (if key == k then some v else member k fs)
member-with_member key v end k = refl
member-with_member key v (field j w fs) k =
    ground (arith, member-with_member key v fs k, eq_iff j key, eq_iff j k, eq_iff key k)

-- The entries that a credential carries: none, one or a list of them.
abbrev pub entries_of : Option Json → Items
entries_of none = nil
entries_of (some (arr items)) = items
entries_of (some j) = cons j nil

-- A value that is no list.
abbrev pub IsSingle : Json → Type 0
IsSingle (arr items) = ⊥
IsSingle _ = Unit

entries-joined :
    (existing : Option Json) (entry : Json)
    → IsSingle entry
    → entries_of (some (joined existing entry)) ≡ push (entries_of existing) entry
entries-joined none (arr items) h = absurd h
entries-joined none null h = refl
entries-joined none (bool b) h = refl
entries-joined none (num n) h = refl
entries-joined none (str s) h = refl
entries-joined none (obj fs) h = refl
entries-joined (some (arr items)) entry h = refl
entries-joined (some null) entry h = refl
entries-joined (some (bool b)) entry h = refl
entries-joined (some (num n)) entry h = refl
entries-joined (some (str s)) entry h = refl
entries-joined (some (obj fs)) entry h = refl

-- An entry that is no list is appended to the entries that the credential carries (none, one or a
-- list of them), which stay in their order, and every other member of the credential is as it was.
pub with_status_entry_lem :
    (credential : Fields) (entry : Json)
    → IsSingle entry
    → (entries_of (member "credentialStatus" (with_status_entry credential entry))
        ≡ push (entries_of (member "credentialStatus" credential)) entry)
      × ((k : String)
          → k ≢ "credentialStatus"
          → member k (with_status_entry credential entry) ≡ member k credential)
unfolding with_status_entry
with_status_entry_lem credential entry h =
    let value : Json = joined (member "credentialStatus" credential) entry in
    (
      ap entries_of (member-with_member "credentialStatus" value credential "credentialStatus")
          ∙ entries-joined (member "credentialStatus" credential) entry h,
      λ k other.
          member-with_member "credentialStatus" value credential k
          ∙ rw (beq_ne (λ e. other (sym e))),
    )
