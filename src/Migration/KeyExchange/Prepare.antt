-- ===== src/Migration/KeyExchange/Prepare.antt =====
-- What `exchange_msk` of src/migtd/src/migration/session.rs does before its first write.
use mig_td.Base.{
  ℕ, zero, suc, ◌+◌, ◌^◌, ◌<◌, ◌≤◌, ◌≡◌, refl, ap, ◌∙◌, Bool, true, false, not, ◌||◌, Option, none,
  some, List, [], ◌∷◌, ltb, ◌==◌, ==_iff, if◌then◌else◌, length, arith, replicate, bytes_eq_iff,
}
use mig_td.Migration.Status.{
  Result, ok, err, invalid_parameter, network_error, policy_unsatisfied_error,
}
use mig_td.Migration.Info.{MigtdMigrationInformation, init_td_info_if_present}
use mig_td.Migration.Version.{
  ExchangeInformation, exchange_information_size, exchange_as_bytes, exchange_from_bytes, validate,
  cal_mig_version,
}
use mig_td.Migration.KeyExchange.{
  Machine, tdx_ok, tdcs_field_mig_enc_key, tdcs_field_servtd_attr, expected_servtd_attr,
  gsm_field_min_export_version, gsm_field_max_export_version, gsm_field_min_import_version,
  gsm_field_max_import_version, read_fields, read_msk, exchange_info, verify_servtd_attr,
  migration_exchange_msk, check_init, prepare,
}
use mig_td.Migration.KeyExchange.Log.{
  WriteLog, Quiet, refused, halted, answered, Quiet-bind, result-Quiet, tdx-Quiet, ok-Quiet,
  ensure-Quiet,
}

module _ {S : Type 0} {m : Machine S} (l : WriteLog m) where
  open l use {writes}

  rd-Quiet :
      (h f : ℕ) (u : List ℕ) (s : S)
      → Quiet l s (tdx_ok (m.servtd_rd h f u s)) (λ a. (m.servtd_rd h f u s).0 ≡ some a)
  rd-Quiet h f u s =
      tdx-Quiet l (m.servtd_rd h f u s).0 s (m.servtd_rd h f u s).1 (l.rd_same h f u s)

  sys-Quiet : (f : ℕ) (s : S) → Quiet l s (tdx_ok (m.sys_rd f s)) (λ a. (m.sys_rd f s).0 ≡ some a)
  sys-Quiet f s = tdx-Quiet l (m.sys_rd f s).0 s (m.sys_rd f s).1 (l.sys_same f s)

  any-Quiet :
      {A : Type 0} (s : S) (r : Result A × S)
      → writes r.1 ≡ writes s
      → Quiet l s r (λ a. r.0 ≡ ok a)
  any-Quiet s r e = result-Quiet l r.0 s r.1 e

  module _ (info : MigtdMigrationInformation) where
    -- These are the limbs of the encryption key of the target TD, from limb `idx` on.
    abbrev pub KeyRead : ℕ → List ℕ → Type 0
    KeyRead idx [] = Unit {0}
    KeyRead idx (x ∷ xs) =
        ((s : S) × ((m.servtd_rd info.binding_handle (tdcs_field_mig_enc_key + idx)
              info.target_td_uuid s).0
            ≡ some x))
        × KeyRead (idx + 1) xs

    read_fields-Quiet :
        (n idx : ℕ) (s : S)
        → Quiet l s (read_fields m n idx info s) (λ xs. (length xs ≡ n) × KeyRead idx xs)
    unfolding read_fields
    read_fields-Quiet zero idx s = ok-Quiet l [] s (refl, tt)
    read_fields-Quiet (suc n) idx s =
        Quiet-bind l _
          (rd-Quiet info.binding_handle (tdcs_field_mig_enc_key + idx) info.target_td_uuid s)
          λ a p.
            Quiet-bind l _ (read_fields-Quiet n (idx + 1) _)
              λ b q. ok-Quiet l _ _ (ap suc q.0, ((s, p), q.1))

    read_msk-Quiet :
        (s : S)
        → Quiet l s (read_msk m info s) (λ key. (length key.fields ≡ 4) × KeyRead 0 key.fields)
    unfolding read_msk
    read_msk-Quiet s = Quiet-bind l _ (read_fields-Quiet 4 0 s) λ a p. ok-Quiet l _ _ p

    -- The fields of the TDX module with this end's lowest and highest version.
    abbrev pub min_field : Bool → ℕ
    min_field b = if b then gsm_field_min_export_version else gsm_field_min_import_version

    abbrev pub max_field : Bool → ℕ
    max_field b = if b then gsm_field_max_export_version else gsm_field_max_import_version

    -- The key is that of the target TD, and the range is what the TDX module answers for the two fields
    -- and fits 16 bits.
    pub record Supported (b : Bool) (local : ExchangeInformation) : Type 0 where
      pub limbs : length local.key.fields ≡ 4
      pub key_read : KeyRead 0 local.key.fields
      pub at_min : S
      pub at_max : S
      pub min_read : (m.sys_rd (min_field b) at_min).0 ≡ some local.min_ver
      pub max_read : (m.sys_rd (max_field b) at_max).0 ≡ some local.max_ver
      pub min_fits : local.min_ver < 2 ^ 16
      pub max_fits : local.max_ver < 2 ^ 16

    exchange_info-Quiet : (b : Bool) (s : S) → Quiet l s (exchange_info m info b s) (Supported b)
    unfolding exchange_info
    exchange_info-Quiet b s = Quiet-bind l _ (read_msk-Quiet s) λ key p.
        Quiet-bind l _ (sys-Quiet (min_field b) _) λ lo q.
          Quiet-bind l _ (sys-Quiet (max_field b) _) λ hi r.
            Quiet-bind l _
              (ensure-Quiet l (not (ltb 0xffff lo || ltb 0xffff hi)) invalid_parameter _)
              λ t u. ok-Quiet l _ _ (record {
                limbs = p.0;
                key_read = p.1;
                at_min = _;
                at_max = _;
                min_read = q;
                max_read = r;
                min_fits = ground (arith, u);
                max_fits = ground (arith, u);
              })

    validate_inv : (i : ExchangeInformation) → validate i ≡ ok tt → i.reserved ≡ replicate 4 0
    unfolding validate
    validate_inv i e = ground (arith, bytes_eq_iff i.reserved (replicate 4 0))

    -- One TLS session, opened in the role `b` with the peer's data: this end's information is written to
    -- it, and then the peer's read from it, with reserved bytes of zero.
    pub record Session (b : Bool) (local : ExchangeInformation) (peer_data : List ℕ)
        (remote : ExchangeInformation) : Type 0 where
      pub before : S
      pub opened : (m.ratls_setup b peer_data before).0 ≡ ok tt
      pub count : ℕ
      pub written :
          (m.ratls_write (exchange_as_bytes local) (m.ratls_setup b peer_data before).1).0
          ≡ ok count
      pub bytes : List ℕ
      pub read :
          (m.ratls_read exchange_information_size
            (m.ratls_write (exchange_as_bytes local) (m.ratls_setup b peer_data before).1).1).0
          ≡ ok bytes
      pub whole : exchange_information_size ≤ length bytes
      pub decoded : remote ≡ exchange_from_bytes bytes
      pub reserved_zero : remote.reserved ≡ replicate 4 0

    migration_exchange-Quiet :
        (b : Bool) (i : ExchangeInformation) (d : List ℕ) (s : S)
        → Quiet l s (migration_exchange_msk m b info i d s) (Session b i d)
    unfolding migration_exchange_msk
    migration_exchange-Quiet b i d s =
        Quiet-bind l _ (any-Quiet s (m.ratls_setup b d s) (l.ratls_setup_same b d s)) λ u opened.
          Quiet-bind l _
            (any-Quiet _ (m.ratls_write (exchange_as_bytes i) _) (l.ratls_write_same _ _))
            λ n written.
              Quiet-bind l _
                (any-Quiet _ (m.ratls_read exchange_information_size _) (l.ratls_read_same _ _))
                λ bytes read.
                  Quiet-bind l _
                    (ensure-Quiet l (not (ltb (length bytes) exchange_information_size))
                      network_error _)
                    λ _ long.
                      Quiet-bind l _ (any-Quiet _ (validate (exchange_from_bytes bytes), _) refl)
                        λ _ v.
                          Quiet-bind l _
                            (any-Quiet _ (m.shutdown_transport info.mig_request_id _)
                              (l.shutdown_same _ _))
                            λ _ _. ok-Quiet l _ _ (record {
                              before = s;
                              opened = opened;
                              count = n;
                              written = written;
                              bytes = bytes;
                              read = read;
                              whole = ground (arith, long);
                              decoded = refl;
                              reserved_zero = validate_inv (exchange_from_bytes bytes) v;
                            })

    -- The initial TD info, where the request has one, passed the check of its policy.
    abbrev pub InitVerified : Option (List ℕ) → Type 0
    InitVerified none = Unit {0}
    InitVerified (some i) = (s : S) × ((m.verify_init_migtd_data_policy_binding i s).0 ≡ true)

    check_init-Quiet :
        (o : Option (List ℕ)) (s : S) → Quiet l s (check_init m o s) (λ _. InitVerified o)
    unfolding check_init
    check_init-Quiet none s = ok-Quiet l tt s tt
    check_init-Quiet (some i) s =
        let r = m.verify_init_migtd_data_policy_binding i s in passed r r.0 refl (l.init_same i s)
      where
        passed :
            (r : Bool × S) (v : Bool)
            → (m.verify_init_migtd_data_policy_binding i s).0 ≡ v
            → writes r.1 ≡ writes s
            → Quiet l s
                (if v then ok tt else err policy_unsatisfied_error, r.1)
                (λ _. InitVerified (some i))
        passed r true e w = answered tt refl (s, e) w
        passed r false e w = refused policy_unsatisfied_error refl w

    -- The attributes of the target TD were read in some state, and are the expected ones.
    abbrev pub Attested : Type 0
    Attested =
        (s : S) × ((m.servtd_rd info.binding_handle tdcs_field_servtd_attr info.target_td_uuid s).0
          ≡ some expected_servtd_attr)

    verify_servtd_attr-Quiet :
        (s : S)
        → Quiet l s (verify_servtd_attr m info.binding_handle info.target_td_uuid s) (λ _. Attested)
    unfolding verify_servtd_attr
    verify_servtd_attr-Quiet s =
        Quiet-bind l _ (rd-Quiet info.binding_handle tdcs_field_servtd_attr info.target_td_uuid s)
          λ attr p.
            ensured attr p (ensure-Quiet l (attr == expected_servtd_attr) invalid_parameter _)
      where
        ensured :
            {s' : S} {r : Result (Unit {0}) × S} (attr : ℕ)
            → (m.servtd_rd info.binding_handle tdcs_field_servtd_attr info.target_td_uuid s).0
              ≡ some attr
            → Quiet l s' r (λ _. (attr == expected_servtd_attr) ≡ true)
            → Quiet l s' r (λ _. Attested)
        ensured attr p (refused e u v) = refused e u v
        ensured attr p (halted u v) = halted u v
        ensured attr p (answered a u h v) =
            answered a u (s, p ∙ ap some ((==_iff attr expected_servtd_attr).0 h)) v

    -- What has been agreed and checked before the first write.
    pub record Agreed (ver : ℕ) (remote : ExchangeInformation) : Type 0 where
      pub init_verified : InitVerified (init_td_info_if_present info)
      pub peer_data : List ℕ
      pub peer_seen : (s : S) × ((m.pre_session_data_exchange s).0 ≡ ok peer_data)
      pub local : ExchangeInformation
      pub supported : Supported (info.migration_source == 1) local
      pub session : Session (info.migration_source == 1) local peer_data remote
      pub version : cal_mig_version (info.migration_source == 1) local remote ≡ ok ver
      pub attested : Attested

    pub prepare-Quiet : (s : S) → Quiet l s (prepare m info s) (λ a. Agreed a.0 a.1)
    unfolding prepare
    prepare-Quiet s =
        Quiet-bind l _ (check_init-Quiet (init_td_info_if_present info) s) λ _ verified.
          Quiet-bind l _ (any-Quiet _ (m.setup_transport info.mig_request_id _) (l.setup_same _ _))
            λ _ _.
              Quiet-bind l _ (any-Quiet _ (m.pre_session_data_exchange _) (l.pre_session_same _))
                λ peer seen.
                  Quiet-bind l _ (exchange_info-Quiet (info.migration_source == 1) _) λ local own.
                    Quiet-bind l _
                      (migration_exchange-Quiet (info.migration_source == 1) local peer _)
                      λ remote session.
                        Quiet-bind l _
                          (any-Quiet _
                            (cal_mig_version (info.migration_source == 1) local remote, _) refl)
                          λ ver v. Quiet-bind l _ (verify_servtd_attr-Quiet _) λ _ w.
                            ok-Quiet l _ _ (record {
                              init_verified = verified;
                              peer_data = peer;
                              peer_seen = (_, seen);
                              local = local;
                              supported = own;
                              session = session;
                              version = v;
                              attested = w;
                            })
