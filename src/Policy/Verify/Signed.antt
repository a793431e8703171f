-- ===== src/Policy/Verify/Signed.antt =====
-- What a policy is that `RawPolicyData::verify` of src/policy/src/v2/policy.rs accepts.
use mig_td.Base.{
  ℕ, ◌≡◌, ◌≢◌, refl, sym, ap, subst, ap₂, ◌↔◌, Bool, true, false, Option, none, some, List, [], ◌∷◌,
  is_empty, bytes_eq_iff, arith,
}
use mig_td.Policy.Fallible.{
  PolicyError, Fallible, ok, err, ◌>>=◌, ◌>>◌, ok_or, ensure, invalid_policy,
  invalid_servtd_identity, invalid_servtd_tcb_mapping,
}
use mig_td.Policy.Text.{Text, text, hex_string_to_bytes}
use mig_td.Policy.Evaluate.{PolicyData}
use mig_td.Policy.Verify.{
  Raw, VerifiedPolicy, External, from_utf8, verify_raw, verify_identity, verify_tcb_mapping,
  verify_policy_data_signature, validate_policy, verify,
}

-- The raw value carries a signature that verifies under the chain, and its content is `a`.
pub record Signed (external : External) {A : Type 0} (parse : Text → Option A) (raw : Raw)
    (chain : Text) (a : A) : Type 0 where
  pub signature : List ℕ
  pub decoded : hex_string_to_bytes raw.signature ≡ ok signature
  pub verifies : external.verify_cert_chain_and_signature chain raw.value signature ≡ true
  pub content : parse raw.value ≡ some a

-- Every answer of a computation satisfies `P`.
abbrev Answers : {A : Type 0} → Fallible A → (A → Type 0) → Type 0
Answers {A} x P = (a : A) → x ≡ ok a → P a

Answers-bind :
    {A B : Type 0} {P : B → Type 0} (x : Fallible A) (f : A → Fallible B)
    → ((a : A) → x ≡ ok a → Answers (f a) P)
    → Answers (x >>= f) P
Answers-bind (ok a) f k b h = k a refl b h
Answers-bind (err e) f k b h = absurd cc

Answers-ensure :
    {B : Type 0} {P : B → Type 0} (x : Bool) (e : PolicyError) (k : Fallible B)
    → (x ≡ true → Answers k P)
    → Answers (ensure x e >> k) P
Answers-ensure true e k g b h = g refl b h
Answers-ensure false e k g b h = absurd cc

Answers-ok : {A : Type 0} (P : A → Type 0) (a : A) → P a → Answers (ok a) P
Answers-ok P a p b h = let q : a ≡ b = cc in subst P q p

ok_or_inv : {A : Type 0} (o : Option A) (e : PolicyError) (a : A) → ok_or o e ≡ ok a → o ≡ some a
ok_or_inv none e a h = absurd cc
ok_or_inv (some x) e a h = ap some cc

module _ (external : External) where
  open external use {parse_policy, parse_identity, parse_tcb_mapping}

  verify_raw_sound :
      {A : Type 0} (parse : Text → Option A) (invalid : PolicyError) (raw : Raw) (chain : Text)
      → Answers (verify_raw external parse invalid raw chain) (Signed external parse raw chain)
  unfolding verify_raw
  verify_raw_sound parse invalid raw chain =
      Answers-bind (hex_string_to_bytes raw.signature) _ λ signature p.
        Answers-ensure (external.verify_cert_chain_and_signature chain raw.value signature) _ _
          λ v a q. record {
            signature = signature;
            decoded = p;
            verifies = v;
            content = ok_or_inv (parse raw.value) invalid a q;
          }

  verify_raw_complete :
      {A : Type 0} (parse : Text → Option A) (invalid : PolicyError) (raw : Raw) (chain : Text)
      (a : A)
      → Signed external parse raw chain a
      → verify_raw external parse invalid raw chain ≡ ok a
  unfolding verify_raw
  verify_raw_complete parse invalid raw chain a s = rw (s.decoded, s.verifies, s.content) refl

  -- What is known of the policy `v` that was accepted from `raw` under `issuer_chain`.
  pub record Verified (raw : Raw) (issuer_chain : List ℕ) (v : VerifiedPolicy) : Type 0 where
    pub chain_text : from_utf8 issuer_chain ≡ some v.policy_issuer_chain
    pub policy_signed : Signed external parse_policy raw issuer_chain v.policy_data
    pub identity_chain :
        v.servtd_identity_issuer_chain
        ≡ v.policy_data.servtd_collateral.servtd_identity_issuer_chain
    pub mapping_chain :
        v.servtd_tcb_mapping_issuer_chain
        ≡ v.policy_data.servtd_collateral.servtd_tcb_mapping_issuer_chain
    pub identity_signed :
        Signed external parse_identity v.policy_data.servtd_collateral.servtd_identity
          v.policy_data.servtd_collateral.servtd_identity_issuer_chain v.servtd_identity
    pub mapping_signed :
        Signed external parse_tcb_mapping v.policy_data.servtd_collateral.servtd_tcb_mapping
          v.policy_data.servtd_collateral.servtd_tcb_mapping_issuer_chain v.servtd_tcb_mapping
    pub id_given : v.policy_data.body.id ≢ []
    pub version_two : v.policy_data.body.version ≡ text "2.0"

  nonempty : (xs : Text) → is_empty xs ≡ false → xs ≢ []
  nonempty [] h = absurd cc
  nonempty (x ∷ xs) h = λ e. cc

  validate_inv :
      (d : PolicyData) → validate_policy d ≡ true → (d.id ≢ []) × (d.version ≡ text "2.0")
  unfolding validate_policy
  validate_inv d h =
      (nonempty d.id (ground arith), (bytes_eq_iff d.version (text "2.0")).0 (ground arith))

  verify_sound :
      (raw : Raw) (issuer_chain : List ℕ)
      → Answers (verify external raw issuer_chain) (Verified raw issuer_chain)
  unfolding verify verify_policy_data_signature verify_identity verify_tcb_mapping
  verify_sound raw issuer_chain =
      Answers-bind (ok_or (from_utf8 issuer_chain) invalid_policy) _ λ chain p1.
        Answers-bind (verify_policy_data_signature external raw issuer_chain) _ λ doc p2.
          let c = doc.servtd_collateral in
          Answers-bind (verify_identity external c.servtd_identity c.servtd_identity_issuer_chain) _
            λ identity p3.
              Answers-bind
                (verify_tcb_mapping external c.servtd_tcb_mapping c.servtd_tcb_mapping_issuer_chain)
                _
                λ mapping p4. Answers-ensure (validate_policy doc.body) _ _ λ valid.
                  Answers-ok _ _ (record {
                    chain_text = ok_or_inv (from_utf8 issuer_chain) invalid_policy chain p1;
                    policy_signed =
                        verify_raw_sound parse_policy invalid_policy raw issuer_chain doc p2;
                    identity_chain = refl;
                    mapping_chain = refl;
                    identity_signed =
                        verify_raw_sound parse_identity invalid_servtd_identity c.servtd_identity
                          c.servtd_identity_issuer_chain identity p3;
                    mapping_signed =
                        verify_raw_sound parse_tcb_mapping invalid_servtd_tcb_mapping
                          c.servtd_tcb_mapping c.servtd_tcb_mapping_issuer_chain mapping p4;
                    id_given = (validate_inv doc.body valid).0;
                    version_two = (validate_inv doc.body valid).1;
                  })

  validate_complete :
      (d : PolicyData) → d.id ≢ [] → d.version ≡ text "2.0" → validate_policy d ≡ true
  unfolding validate_policy
  validate_complete d a b = rw ((bytes_eq_iff d.version (text "2.0")).1 b, given d.id a) refl
    where
      given : (xs : Text) → xs ≢ [] → is_empty xs ≡ false
      given [] h = absurd (h refl)
      given (x ∷ xs) h = refl

  verify_complete :
      (raw : Raw) (issuer_chain : List ℕ) (v : VerifiedPolicy)
      → Verified raw issuer_chain v
      → verify external raw issuer_chain ≡ ok v
  unfolding verify verify_policy_data_signature verify_identity verify_tcb_mapping
  verify_complete raw issuer_chain v h =
      let c = v.policy_data.servtd_collateral in
      rw
        (
          h.chain_text,
          verify_raw_complete parse_policy invalid_policy raw issuer_chain v.policy_data
              h.policy_signed,
          verify_raw_complete parse_identity invalid_servtd_identity c.servtd_identity
              c.servtd_identity_issuer_chain v.servtd_identity h.identity_signed,
          verify_raw_complete parse_tcb_mapping invalid_servtd_tcb_mapping c.servtd_tcb_mapping
              c.servtd_tcb_mapping_issuer_chain v.servtd_tcb_mapping h.mapping_signed,
          validate_complete v.policy_data.body h.id_given h.version_two,
        )
        (ap₂
          (λ a b.
            ok (record v { servtd_identity_issuer_chain = a; servtd_tcb_mapping_issuer_chain = b }))
          (sym h.identity_chain) (sym h.mapping_chain))

  -- A policy is accepted exactly when the issuer chain is text, the policy data carries a signature that
  -- verifies under this chain, the identity and the mapping in its collateral carry signatures that verify under
  -- the chains that stand there, all three can be parsed, the policy has an id, and its version is 2.0. The
  -- answer then holds what was signed.
  pub verify_iff :
      (raw : Raw) (issuer_chain : List ℕ) (v : VerifiedPolicy)
      → (verify external raw issuer_chain ≡ ok v) ↔ Verified raw issuer_chain v
  verify_iff raw issuer_chain v =
      (verify_sound raw issuer_chain v, verify_complete raw issuer_chain v)
