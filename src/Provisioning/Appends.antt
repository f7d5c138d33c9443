-- ===== src/Provisioning/Appends.antt =====
-- `appendEnvBlock` of service/src/cli/provisioning.ts refuses what it wrote before.
use text.Mathlib.TextLemmas.{cons-append, nil-append, append-nil, append_assoc}
use Prim.Native.Char.{code}
use vcalm_status_service.Common.{
  String, ◌≡◌, ◌≢◌, refl, sym, ap, ◌∙◌, Bool, true, false, not, ◌&&◌, Option, none, some, List, [],
  ◌∷◌, string_eq, nat_eq, if◌then◌else◌, is_some, Bool-cases, inl, inr, beq_ne,
}
use vcalm_status_service.Common.Text.{◌⧺◌}
use vcalm_status_service.Common.Ascii.{upper_case, trim_start}
use vcalm_status_service.Common.Prefix.{strip_prefix, strip_prefix-append, join}
use vcalm_status_service.Errors.{
  Result, ok, err, pure, ◌>>=◌, ◌>>◌, plain_error, provisioning_error, Result-cases,
}
use vcalm_status_service.Common.Chars.{all_chars}
use vcalm_status_service.Provisioning.{ProvisionedTenant, render_env_block, block_comment}
use vcalm_status_service.Provisioning.Files.{
  is_break, first_of, at_later_line, at_some_line, after_equals, after_name, has_tenant, is_word,
  base_url_from_env_file, EnvFile, read_file, write_file, held_in, append_to, append_env_block,
  separator, new_file_header, EnvFileWrite,
}
use vcalm_status_service.Provisioning.Entries.{line_of}
use vcalm_status_service.Provisioning.Block.{env_block_lines_lem}

either_some : (a b : Option String) → is_some b ≡ true → is_some (first_of a b) ≡ true
either_some none b h = h
either_some (some s) b h = refl

-- What is found at a later line is found with any text in front.
later-append :
    (found : String → Option String) (a s : String)
    → is_some (at_later_line found s) ≡ true
    → is_some (at_later_line found (a ⧺ s)) ≡ true
later-append found String.[] s h = rw (nil-append s) h
later-append found (String.◌∷◌ c a) s h =
    ap (λ t. is_some (at_later_line found t)) (cons-append c a s)
    ∙ by_break (is_break (code c)) (later-append found a s h)
  where
    by_break :
        (b : Bool)
        → is_some (at_later_line found (a ⧺ s)) ≡ true
        → is_some (
            if b
            then first_of (found (a ⧺ s)) (at_later_line found (a ⧺ s))
            else at_later_line found (a ⧺ s))
          ≡ true
    by_break true k = either_some (found (a ⧺ s)) _ k
    by_break false k = k

some_line :
    (found : String → Option String) (s : String)
    → is_some (at_later_line found s) ≡ true
    → is_some (at_some_line found s) ≡ true
some_line found s h = either_some (found s) (at_later_line found s) h

-- A line is found after the end of the one before.
later_line :
    (found : String → Option String) (a s : String)
    → is_some (found s) ≡ true
    → is_some (at_later_line found (a ⧺ String.◌∷◌ "\n" s)) ≡ true
later_line found a s h = later-append found a (String.◌∷◌ "\n" s) (first_some (found s) h)
  where
    first_some :
        (o : Option String) → is_some o ≡ true → is_some (first_of o (at_later_line found s)) ≡ true
    first_some none k = cc
    first_some (some x) k = refl

abbrev token_name : String → String
token_name id = "TENANT_TOKEN_" ⧺ upper_case id

trim_start-token : (s : String) → trim_start ("TENANT_TOKEN_" ⧺ s) ≡ "TENANT_TOKEN_" ⧺ s
trim_start-token s = rw (cons-append "T" "ENANT_TOKEN_" s) refl

equals_found : (s : String) → is_some (strip_prefix "=" (trim_start ("=" ⧺ s))) ≡ true
equals_found s = rw (cons-append "=" "" s) refl

-- The line that the block has for the token.
found_token :
    (id rest : String) → is_some (after_name (token_name id) (token_name id ⧺ "=" ⧺ rest)) ≡ true
found_token id rest =
    let whole = append_assoc "TENANT_TOKEN_" (upper_case id) ("=" ⧺ rest) in
    let kept : trim_start (token_name id ⧺ "=" ⧺ rest) ≡ token_name id ⧺ "=" ⧺ rest =
      ap trim_start whole ∙ trim_start-token (upper_case id ⧺ "=" ⧺ rest) ∙ sym whole in
    ap (λ s. is_some (after_equals (strip_prefix (token_name id) s))) kept
    ∙ ap (λ o. is_some (after_equals o)) (strip_prefix-append (token_name id) ("=" ⧺ rest))
    ∙ equals_found rest

-- The lines behind the first, each behind a line end.
abbrev rest_of : List String → String
rest_of [] = ""
rest_of (l ∷ ls) = "\n" ⧺ join "\n" (l ∷ ls)

join_first : (l : String) (ls : List String) → join "\n" (l ∷ ls) ≡ l ⧺ rest_of ls
join_first l [] = sym (append-nil l)
join_first l (k ∷ ls) = refl

break_append : (s : String) → "\n" ⧺ s ≡ String.◌∷◌ "\n" s
break_append s = cons-append "\n" "" s ∙ ap (String.◌∷◌ "\n") (nil-append s)

-- Two lines, and what follows them.
abbrev lead : String → String → String → String → String
lead comment key value rest = comment ⧺ String.◌∷◌ "\n" (key ⧺ "=" ⧺ value ⧺ rest)

join-lead :
    (comment key value : String) (ls : List String)
    → join "\n" (comment ∷ line_of (key, value) ∷ ls) ⧺ "\n"
      ≡ lead comment key value (rest_of ls ⧺ "\n")
join-lead comment key value ls =
    append_assoc comment ("\n" ⧺ join "\n" (line_of (key, value) ∷ ls)) "\n"
    ∙ ap (λ s. comment ⧺ s)
        (append_assoc "\n" (join "\n" (line_of (key, value) ∷ ls)) "\n"
          ∙ break_append (join "\n" (line_of (key, value) ∷ ls) ⧺ "\n")
          ∙ ap (String.◌∷◌ "\n")
              (ap (λ s. s ⧺ "\n") (join_first (line_of (key, value)) ls) ∙ simp (append_assoc)))

module _ (t : ProvisionedTenant) where
  block_lem :
      (rest : String) × (render_env_block t
        ≡ lead (block_comment t) (token_name t.tenant_id) t.token rest)
  unfolding render_env_block
  block_lem = (
    _,
    ap (λ ls. join "\n" ls ⧺ "\n") (env_block_lines_lem t)
        ∙ join-lead (block_comment t) (token_name t.tenant_id) (t.token) _,
  )

  abbrev found_in : String → Bool
  found_in contents = is_some (at_some_line (after_name (token_name t.tenant_id)) contents)

  -- The tenant is found in what ends with the block.
  found-block : (front : String) → found_in (front ⧺ render_env_block t) ≡ true
  found-block front =
      let found = after_name (token_name t.tenant_id) in
      let (rest, e) = block_lem in
      ap (λ b. is_some (at_some_line found (front ⧺ b))) e
      ∙ some_line found (front ⧺ lead (block_comment t) (token_name t.tenant_id) t.token rest) (
          later-append found front (lead (block_comment t) (token_name t.tenant_id) t.token rest) (
            later_line found (block_comment t) (token_name t.tenant_id ⧺ "=" ⧺ t.token ⧺ rest)
              (found_token (t.tenant_id) (t.token ⧺ rest))))

  module _ (reg_exp : String → String → Result Bool) where
    held-block :
        (block front : String)
        → t.tenant_id ≢ ""
        → all_chars is_word (upper_case t.tenant_id) ≡ true
        → held_in reg_exp block t.tenant_id false (front ⧺ render_env_block t) ≡ ok true
    unfolding has_tenant
    held-block block front named words =
        rw (beq_ne named, words) (ap (λ b. ok b) (found-block front))

    refused :
        (block contents : String) (f : EnvFile)
        → f.readable ≡ true
        → f.contents ≡ some contents
        → held_in reg_exp block t.tenant_id false contents ≡ ok true
        → append_env_block reg_exp block t.tenant_id false f ≡ (err provisioning_error, f)
    unfolding append_env_block
    refused block contents f may holds held = rw (may, holds, held) refl

    -- What a call that succeeds leaves: a file that can be read as before and ends with the block.
    pub record Ends (f f' : EnvFile) : Type 0 where
      pub front : String
      pub access : f'.readable ≡ f.readable
      pub holds : f'.contents ≡ some (front ⧺ render_env_block t)

    wrote :
        {A : Type 0} (front text : String) (f : EnvFile) (w : A) {v : A} {f' : EnvFile}
        → text ≡ front ⧺ render_env_block t
        → (do write_file text; pure w) f ≡ (ok v, f')
        → Ends f f'
    wrote {A} front text f w {v} {f'} e h = by_access f.writable h
      where
        by_access :
            (may : Bool)
            → ((λ (g : EnvFile).
                    if may
                    then (ok tt, record f { contents = some text })
                    else (err plain_error, f))
                  >>= λ (u : Unit {0}). pure w)
                f
              ≡ (ok v, f')
            → Ends f f'
        by_access true done =
            let same : record f { contents = some text } ≡ f' =
              ap (λ (r : Result A × EnvFile). r.1) done in
            record {
              front = front;
              access = sym (ap (λ (x : EnvFile). x.readable) same);
              holds = sym (ap (λ (x : EnvFile). x.contents) same) ∙ ap some e;
            }
        by_access false done = cc

    written :
        (force : Bool) (found : Option String) (f : EnvFile) {w : EnvFileWrite} {f' : EnvFile}
        → append_to reg_exp (render_env_block t) t.tenant_id force found f ≡ (ok w, f')
        → Ends f f'
    written force none f h =
        wrote (new_file_header ⧺ "\n") (new_file_header ⧺ "\n" ⧺ render_env_block t) f
          (record { created = true; base_url = none })
          (sym (append_assoc new_file_header "\n" (render_env_block t))) h
    written force (some contents) f h =
        elim (Result-cases (held_in reg_exp (render_env_block t) t.tenant_id force contents)) [
          | inr (x, thrown) ↦ cc (rw thrown at h)
          | inl (held, tested) ↦ elim (Bool-cases (held && not force)) [
            | inl stop ↦ cc (rw (tested, stop) at h)
            | inr go ↦
                wrote (contents ⧺ separator contents)
                  (contents ⧺ separator contents ⧺ render_env_block t) f
                  (record { created = false; base_url = base_url_from_env_file contents })
                  (sym (append_assoc contents (separator contents) (render_env_block t)))
                  (rw (tested, go) at h)
          ]
        ]

    pub appended :
        (force : Bool) (f : EnvFile) {w : EnvFileWrite} {f' : EnvFile}
        → append_env_block reg_exp (render_env_block t) t.tenant_id force f ≡ (ok w, f')
        → Ends f f'
    unfolding append_env_block
    appended force f h = written force (read_file f) f h

    -- After a block of a tenant, whose id is not empty and in upper case has only letters, digits
    -- and underscores, was appended to an env file that can be read, or made one, appending a block
    -- for that tenant without force is refused and leaves the file as it was.
    pub append_env_block_twice :
        (block : String) (force : Bool) (f : EnvFile) {w : EnvFileWrite} {f' : EnvFile}
        → t.tenant_id ≢ ""
        → all_chars is_word (upper_case t.tenant_id) ≡ true
        → f.readable ≡ true
        → append_env_block reg_exp (render_env_block t) t.tenant_id force f ≡ (ok w, f')
        → append_env_block reg_exp block t.tenant_id false f' ≡ (err provisioning_error, f')
    append_env_block_twice block force f {w} {f'} named words may h =
        let ends = appended force f h in
        refused block (ends.front ⧺ render_env_block t) f' (ends.access ∙ may) ends.holds
          (held-block block ends.front named words)
