-- ===== src/StatusLists/Manager/Updates.antt =====
-- `setStatus` of service/src/status-lists/manager.ts, over any storage that keeps its contract.
use vcalm_status_service.Common.{
  ◌∙◌, ℕ, ◌+◌, ◌≤◌, ◌<◌, ◌≡◌, refl, Bool, true, false, not, some, arith, ◌==◌, string_eq, nat_eq,
  if◌then◌else◌, lt→ltb,
}
use vcalm_status_service.Json.{nat}
use vcalm_status_service.Errors.{ok, Action, pure}
use vcalm_status_service.Storage.{Date, StatusListRecord, StatusListMaterialization, materialized}
use vcalm_status_service.Tenants.{IssuerInstance}
use vcalm_status_service.Signing.{SigningService, Signs}
use vcalm_status_service.StatusLists.Bitstring.{BitstringLibrary, BitstringLaws, read_status}
use vcalm_status_service.StatusLists.Manager.Effects.{Outside}
use vcalm_status_service.StatusLists.Manager.{
  Deps, StatusChange, canonical_url, index_in_range, apply_status, flip_status, untouched,
  same_status,
}
use vcalm_status_service.StatusLists.Manager.Signs.{Publishes, materialize-Publishes}

same_status-not : (v : Bool) → same_status (not v) v ≡ false
same_status-not true = refl
same_status-not false = refl

pub same_status_self : (v : Bool) → same_status v v ≡ true
same_status_self true = refl
same_status_self false = refl

ite_apply :
    {S A : Type 0} (b : Bool) (m k : Action S A) (s : S)
    → (if b then m else k) s ≡ (if b then m s else k s)
ite_apply true m k s = refl
ite_apply false m k s = refl

module _ (lib : BitstringLibrary) where
  -- The stored encoding decodes to at least as many bits as the list has entries.
  pub record IsReadable (r : StatusListRecord) : Type 0 where
    pub bits : lib.BitstringStatusList
    pub decodes : lib.decode_list (r.encoded_list) ≡ some bits
    pub long_enough : r.characteristics.length ≤ lib.size bits

  -- One entry of the list is as written, all others are as they were, and nothing that was fixed at
  -- creation has changed.
  pub record IsFlipped (deps : Deps) (i : ℕ) (v : Bool) (r r' : StatusListRecord) : Type 0 where
    pub bits :
        (j : ℕ)
        → j < r.characteristics.length
        → read_status lib (r'.encoded_list) j
          ≡ (if i == j then some v else read_status lib (r.encoded_list) j)
    pub readable : IsReadable r'
    pub url : canonical_url deps r' ≡ canonical_url deps r
    pub version : r'.version ≡ r.version + 1
    pub id : r'.id ≡ r.id
    pub tenant_id : r'.tenant_id ≡ r.tenant_id
    pub issuer_instance_id : r'.issuer_instance_id ≡ r.issuer_instance_id
    pub status_purpose : r'.status_purpose ≡ r.status_purpose
    pub characteristics : r'.characteristics ≡ r.characteristics
    pub created_at : r'.created_at ≡ r.created_at

module _ (lib : BitstringLibrary) (signing : SigningService) (deps : Deps) where
  -- In range, an update comes down to the value that is held.
  pub apply_status_held :
      (inst : IssuerInstance) (r : StatusListRecord) (i : ℕ) (held v : Bool) (o : Outside signing)
      → (readable : IsReadable lib r) → i < r.characteristics.length
      → read_status lib (r.encoded_list) i ≡ some held
      → apply_status lib signing deps r inst (nat i) v o ≡ (
          if same_status held v
          then (ok (untouched r i), o)
          else flip_status lib signing deps r inst i v (readable.bits) o)
  unfolding apply_status read_status index_in_range
  apply_status_held inst r i held v o readable h e =
      let got : lib.get_status (readable.bits) i ≡ some held = rw (readable.decodes) at e in
      rw (lt→ltb i (r.characteristics.length) h, readable.decodes, got)
        (ite_apply (same_status held v) (pure (untouched r i))
          (flip_status lib signing deps r inst i v (readable.bits)) o)

module _ (lib : BitstringLibrary) (laws : BitstringLaws lib) (signing : SigningService)
    (deps : Deps) where
  -- A materialization of flipped bits, written to its record.
  materialized-IsFlipped :
      (r : StatusListRecord) (now : Date) (i : ℕ) (v : Bool) (m : StatusListMaterialization)
      → (readable : IsReadable lib r) → i < r.characteristics.length
      → (c : lib.BitstringStatusList) → lib.size readable.bits ≤ lib.size c
      → ((j : ℕ)
          → j < lib.size readable.bits
          → lib.get_status c j ≡ (if i == j then some v else lib.get_status readable.bits j))
      → Publishes lib signing deps (canonical_url deps r) (r.status_purpose) c m
      → IsFlipped lib deps i v r (materialized now m r)
  unfolding read_status
  materialized-IsFlipped r now i v m readable h c size same p =
      let (d, decodes, padded, agree) =
        laws.decode_credential (canonical_url deps r) c (r.status_purpose) in
      record {
        bits = λ j hj.
            rw (p.encoded, decodes, readable.decodes)
              (agree j (omega arith) ∙ same j (omega arith));
        readable = record { bits = d; decodes = rw (p.encoded) decodes; long_enough = omega arith };
        url = rw (p.id, laws.credential_id (canonical_url deps r) c (r.status_purpose));
        version = refl;
        id = refl;
        tenant_id = refl;
        issuer_instance_id = refl;
        status_purpose = refl;
        characteristics = refl;
        created_at = refl;
      }

  module _ (inst : IssuerInstance) (works : Signs signing inst) where
    -- A write of the other value signs once, and its outcome is the flipped list.
    flip_status_lem :
        (r : StatusListRecord) (i : ℕ) (v : Bool) (o : Outside signing)
        → (readable : IsReadable lib r) → i < r.characteristics.length
        → (m : StatusListMaterialization) × (x : StatusChange) × (o' : Outside signing)
          × (flip_status lib signing deps r inst i v (readable.bits) o
              ≡ (ok (record { materialization = some m; result = x }), o'))
          × ((now : Date) → IsFlipped lib deps i v r (materialized now m r))
          × (x ≡ record {
            changed = true;
            list = materialized (x.list.updated_at) m r;
            status_list_index = i;
          })
    unfolding flip_status
    flip_status_lem r i v o readable h =
        let (c, set, size, same) =
          laws.set_in_range (readable.bits) i v (omega (arith, readable.long_enough)) in
        let (m, o', e, p) =
          materialize-Publishes lib signing deps inst works (canonical_url deps r)
            (r.status_purpose) c (r.characteristics.ttl) o in
        (
          m,
          record {
            changed = true;
            list = materialized (deps.now o'.draws) m r;
            status_list_index = i;
          },
          record o' { draws = o'.draws + 1 },
          rw (set, e),
          λ now. materialized-IsFlipped r now i v m readable h c size same p,
          refl,
        )

    -- The held value is the other one: the outcome is the flipped list.
    pub apply_status_flips :
        (r : StatusListRecord) (i : ℕ) (v : Bool) (o : Outside signing)
        → IsReadable lib r
        → i < r.characteristics.length
        → read_status lib (r.encoded_list) i ≡ some (not v)
        → (m : StatusListMaterialization) × (x : StatusChange) × (o' : Outside signing)
          × (apply_status lib signing deps r inst (nat i) v o
              ≡ (ok (record { materialization = some m; result = x }), o'))
          × ((now : Date) → IsFlipped lib deps i v r (materialized now m r))
          × (x ≡ record {
            changed = true;
            list = materialized (x.list.updated_at) m r;
            status_list_index = i;
          })
    apply_status_flips r i v o readable h held =
        let (m, x, o', e, flipped, same) = flip_status_lem r i v o readable h in
        (
          m,
          x,
          o',
          apply_status_held lib signing deps inst r i (not v) v o readable h held
              ∙ rw (same_status-not v) e,
          flipped,
          same,
        )
