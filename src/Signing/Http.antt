-- ===== src/Signing/Http.antt =====
-- service/src/services/signing-http.ts: a signer behind HTTP. The request is a parameter: it gives
-- `none` where `fetch` throws, which its deadline makes it do.
use Prim.Native.Char.{code}
use mathlib.Core.Path.{subst, ap₂}
use vcalm_status_service.Common.{
  ℕ, ◌≡◌, refl, String, true, ◌&&◌, Option, none, some, ◌==◌, string_eq, nat_eq, if◌then◌else◌, leb,
  is_some, Bool-cases, inl, inr, ap,
}
use vcalm_status_service.Common.Text.{◌⧺◌}
use vcalm_status_service.Json.{Json, null, bool, num, str, arr, obj, Fields, member}
use vcalm_status_service.Errors.{
  Result, ok, err, Action, signing_service_error, plain_error, signing_unavailable,
  signing_rejected, signing_misconfigured,
}
use vcalm_status_service.VcSigner.{UnsignedCredential}
use vcalm_status_service.Tenants.{IssuerInstance}

-- The answer: its status, and its body if it is JSON.
pub record Response : Type 0 where
  pub status : ℕ
  pub json : Option Json

pub record Remote : Type 1 where
  pub State : Type 0
  pub post : (url token : String) → UnsignedCredential → State → Option Response × State

-- A credential that carries a proof.
abbrev with_proof : Fields → Option Json → Result Fields
with_proof fs none = err (signing_service_error signing_rejected)
with_proof fs (some _) = ok fs

abbrev signed : Json → Result Fields
signed (obj fs) = with_proof fs (member "proof" fs)
signed _ = err (signing_service_error signing_rejected)

abbrev unwrapped : Json → Option Json → Json
unwrapped body none = body
unwrapped body (some candidate) = candidate

abbrev candidate_of : Json → Json
candidate_of (obj fs) = unwrapped (obj fs) (member "verifiableCredential" fs)
candidate_of body = body

-- `credentialFromResponse`
unfoldable pub credential_from_response : Json → Result Fields
credential_from_response body = signed (candidate_of body)

-- `url.replace(/\/+$/, '')`
abbrev without_slashes : String → String
without_slashes String.[] = ""
without_slashes (String.◌∷◌ c s) =
    let rest = without_slashes s in if rest == "" && code c == b'/' then "" else String.◌∷◌ c rest

-- `!x`, of a text that may be missing
abbrev pub given : Option String → Option String
given none = none
given (some s) = if s == "" then none else some s

abbrev did_or_error : Option String → Result String
did_or_error none = err (signing_service_error signing_misconfigured)
did_or_error (some did) = ok did

-- `issuerDid`
unfoldable pub http_issuer_did : IssuerInstance → Result String
http_issuer_did i = did_or_error (given i.issuer_did)

abbrev from_json : Option Json → Result Fields
from_json none = err plain_error
from_json (some body) = credential_from_response body

abbrev from_response : Option Response → Result Fields
from_response none = err (signing_service_error signing_unavailable)
from_response (some r) =
    if leb 200 r.status && leb r.status 299
    then from_json r.json
    else if leb 500 r.status
    then err (signing_service_error signing_unavailable)
    else err (signing_service_error signing_rejected)

module _ (remote : Remote) (url : String) where
  abbrev post_with : Option String → UnsignedCredential → Action remote.State Fields
  post_with none u s = (err (signing_service_error signing_misconfigured), s)
  post_with (some token) u s =
      let (r, t) = remote.post (without_slashes url ⧺ "/credentials/issue") token u s in
      (from_response r, t)

  -- `sign`
  unfoldable pub http_sign : IssuerInstance → UnsignedCredential → Action remote.State Fields
  http_sign i = post_with (given i.signing_service_token)

-- What is accepted from the remote carries a proof.
credential_from_response_sound :
    (body : Json) (fs : Fields)
    → credential_from_response body ≡ ok fs
    → (is_some (member "proof" fs) ≡ true) × (candidate_of body ≡ obj fs)
unfolding credential_from_response
credential_from_response_sound body fs = of_candidate (candidate_of body)
  where
    of_member :
        (gs : Fields) (p : Option Json)
        → member "proof" gs ≡ p
        → with_proof gs p ≡ ok fs
        → (is_some (member "proof" fs) ≡ true) × (obj gs ≡ obj fs)
    of_member gs none h e = cc
    of_member gs (some p) h e =
        let same : gs ≡ fs = cc e in
        (subst (λ x. is_some (member "proof" x) ≡ true) same (ap is_some h), ap obj same)

    of_candidate :
        (c : Json) → signed c ≡ ok fs → (is_some (member "proof" fs) ≡ true) × (c ≡ obj fs)
    of_candidate (obj gs) e = of_member gs (member "proof" gs) refl e
    of_candidate null e = cc
    of_candidate (bool b) e = cc
    of_candidate (num n) e = cc
    of_candidate (str s) e = cc
    of_candidate (arr items) e = cc

from_response_sound :
    (r : Option Response) (fs : Fields)
    → from_response r ≡ ok fs
    → (a : Response) × (r ≡ some a)
      × (leb 200 a.status && leb a.status 299 ≡ true)
      × (is_some (member "proof" fs) ≡ true)
from_response_sound none fs e = cc
from_response_sound (some a) fs e = elim (Bool-cases (leb 200 a.status && leb a.status 299)) [
  | inr bad ↦ elim (Bool-cases (leb 500 a.status)) [
    | inl late ↦ cc (rw (bad, late) at e)
    | inr early ↦ cc (rw (bad, early) at e)
  ]
  | inl good ↦ (a, refl, good, of_json (a.json) (rw good at e))
]
  where
    of_json : (body : Option Json) → from_json body ≡ ok fs → is_some (member "proof" fs) ≡ true
    of_json none h = cc
    of_json (some body) h = (credential_from_response_sound body fs h).0

module _ (remote : Remote) (url : String) (i : IssuerInstance) (u : UnsignedCredential)
    (s t : remote.State) (fs : Fields) where
  abbrev pub endpoint : String
  endpoint = without_slashes url ⧺ "/credentials/issue"

  -- A credential that comes back from the remote signer was asked for at its endpoint with the
  -- instance's token, came with a status from 200 up to 299, and carries a proof.
  pub http_sign_sound :
      http_sign remote url i u s ≡ (ok fs, t)
      → (token : String) × (a : Response) × (given i.signing_service_token ≡ some token)
        × (remote.post endpoint token u s ≡ (some a, t))
        × (leb 200 a.status && leb a.status 299 ≡ true)
        × (is_some (member "proof" fs) ≡ true)
  unfolding http_sign
  http_sign_sound e = by_token (given i.signing_service_token) refl e
    where
      by_token :
          (o : Option String)
          → given i.signing_service_token ≡ o
          → post_with remote url o u s ≡ (ok fs, t)
          → (token : String) × (a : Response) × (given i.signing_service_token ≡ some token)
            × (remote.post endpoint token u s ≡ (some a, t))
            × (leb 200 a.status && leb a.status 299 ≡ true)
            × (is_some (member "proof" fs) ≡ true)
      by_token none h k = cc
      by_token (some token) h k =
          let (a, answer, good, proof) =
            from_response_sound (remote.post endpoint token u s).0 fs
              (ap (λ (x : Result Fields × remote.State). x.0) k) in
          (
            token,
            a,
            h,
            ap₂ (λ (x : Option Response) (y : remote.State). (x, y)) answer
                (ap (λ (x : Result Fields × remote.State). x.1) k),
            good,
            proof,
          )
