-- ===== src/Tests/Policies.antt =====
-- The evaluation of policies on small inputs.
use mig_td.Base.{◌≡◌, ◌↔◌, true, false, none, some, List, [], ◌∷◌, arith, All, bytes_eq}
use mig_td.Policy.Fallible.{ok}
use mig_td.Policy.Text.{text, bytes_to_hex_string, hex_string_to_bytes}
use mig_td.Policy.Status.{tcb_status, as_str, configuration_needed, out_of_date}
use mig_td.Policy.Status.Names.{tcb_status_iff}
use mig_td.Policy.Property.{PolicyProperty, integer, string_list, evaluate_tcb_status}
use mig_td.Policy.Property.TcbStatusRule.{Tolerated, evaluate_tcb_status_iff}
use mig_td.Policy.Evaluate.{
  PolicyEvaluationInfo, PolicyTypes, global, servtd, evaluate_policy_block,
}
use mig_td.Policy.Evaluate.Accepted.{Accepts, evaluate_policy_block_iff}
use mig_td.Policy.Measurements.{
  Measurements, SvnMapping, get_engine_svn_by_measurements, FirstMatch, get_engine_svn_iff,
}
use mig_td.Policy.Hex.{hex_string_to_bytes-bytes_to_hex_string}
use mig_td.Policy.Verify.{
  Raw, TdIdentity, TdTcbMapping, PolicyDocument, VerifiedPolicy, External, verify,
}
use mig_td.Policy.Verify.Signed.{Verified, verify_iff}
use mig_td.Policy.Property.{string, evaluate_integer}
use mig_td.Policy.Property.IntegerRule.{Fits, evaluate_integer_iff}
use mig_td.Policy.Property.{evaluate_string}
use mig_td.Policy.Property.StringRule.{Permits, evaluate_string_iff}

abbrev allow_configuration : PolicyProperty
allow_configuration = record {
  operation = text "allow-list";
  reference = string_list (text "UpToDate" ∷ text "ConfigurationNeeded" ∷ []);
}

abbrev at_least_three : PolicyProperty
at_least_three = record { operation = text "greater-or-equal"; reference = integer 3 }

abbrev platform : PolicyEvaluationInfo
platform = record {
  tee_tcb_svn = none;
  tcb_date = none;
  tcb_status = some (text "OutOfDateConfigurationNeeded");
  tcb_evaluation_number = some 5;
  fmspc = none;
  migtd_isvsvn = some 4;
  migtd_tcb_status = none;
  migtd_tcb_date = none;
  pck_crl_num = none;
  root_ca_crl_num = none;
}

abbrev block : List PolicyTypes
block =
    global (record {
      tcb = some (record {
        tcb_date = none;
        tcb_status_accepted = some allow_configuration;
        tcb_evaluation_data_number = some at_least_three;
      });
      platform = none;
      crl = none;
    })
    ∷ servtd (record {
      migtd_identity = record {
        isvsvn = some at_least_three;
        tcb_date = none;
        tcb_status_accepted = none;
      };
    })
    ∷ []

evaluate_policy_block_iff_example :
    (evaluate_policy_block block platform platform false ≡ ok tt)
    ↔ All (Accepts platform platform false) block
evaluate_policy_block_iff_example = evaluate_policy_block_iff platform platform block false

evaluate_tcb_status_iff_example :
    (evaluate_tcb_status allow_configuration configuration_needed none ≡ ok true)
    ↔ Tolerated allow_configuration configuration_needed none
evaluate_tcb_status_iff_example =
    evaluate_tcb_status_iff allow_configuration configuration_needed none

tcb_status_iff_example :
    (tcb_status (text "OutOfDate") ≡ ok out_of_date) ↔ (text "OutOfDate" ≡ as_str out_of_date)
tcb_status_iff_example = tcb_status_iff (text "OutOfDate") out_of_date

abbrev measured : Measurements
measured = record {
  mrtd = text "ab";
  rtmr0 = text "01";
  rtmr1 = text "02";
  rtmr2 = some (text "03");
  rtmr3 = none;
}

abbrev mappings : List SvnMapping
mappings =
    record { td_measurements = record measured { mrtd = text "FF" }; isvsvn = 1 }
    ∷ record { td_measurements = record measured { mrtd = text "AB"; rtmr2 = none }; isvsvn = 2 }
    ∷ []

get_engine_svn_iff_example :
    (get_engine_svn_by_measurements mappings measured ≡ some 2) ↔ FirstMatch mappings measured 2
get_engine_svn_iff_example = get_engine_svn_iff mappings measured 2

hex_string_to_bytes-bytes_to_hex_string_example :
    hex_string_to_bytes (bytes_to_hex_string (0x48 ∷ 0xff ∷ [])) ≡ ok (0x48 ∷ 0xff ∷ [])
hex_string_to_bytes-bytes_to_hex_string_example =
    hex_string_to_bytes-bytes_to_hex_string 0x48 (0xff ∷ []) (omega arith, (omega arith, tt))

abbrev signed : Raw
signed = record { value = text "{}"; signature = text "01ff" }

abbrev document : PolicyDocument
document = record {
  body = record {
    id = text "A";
    version = text "2.0";
    policy_svn = 1;
    policy = none;
    forward_policy = none;
    backward_policy = none;
  };
  servtd_collateral = record {
    major_version = 1;
    minor_version = 0;
    servtd_identity_issuer_chain = text "B";
    servtd_identity = signed;
    servtd_tcb_mapping_issuer_chain = text "C";
    servtd_tcb_mapping = signed;
  };
}

abbrev td_identity : TdIdentity
td_identity = record {
  id = text "I";
  version = 1;
  issue_date = [];
  next_update = [];
  tcb_evaluation_number = 1;
  xfam = [];
  attributes = [];
  mr_config_id = [];
  mr_owner = [];
  mr_owner_config = [];
  mrsigner = [];
  isv_prod_id = 1;
  tcb_levels = [];
}

abbrev td_tcb_mapping : TdTcbMapping
td_tcb_mapping = record {
  id = text "M";
  version = 1;
  issue_date = [];
  next_update = [];
  mr_signer = [];
  isv_prod_id = 1;
  svn_mappings = [];
}

-- Every text has one content, and a signature verifies exactly if it is the bytes 01 ff.
abbrev external : External
external = record {
  parse_policy = λ t. some document;
  parse_identity = λ t. some td_identity;
  parse_tcb_mapping = λ t. some td_tcb_mapping;
  verify_cert_chain_and_signature = λ chain value signature. bytes_eq signature (0x01 ∷ 0xff ∷ []);
}

abbrev verified : VerifiedPolicy
verified = record {
  policy_data = document;
  servtd_identity = td_identity;
  servtd_identity_issuer_chain = text "B";
  servtd_tcb_mapping = td_tcb_mapping;
  servtd_tcb_mapping_issuer_chain = text "C";
  policy_issuer_chain = text "root";
}

verify_iff_example :
    (verify external signed (text "root") ≡ ok verified)
    ↔ Verified external signed (text "root") verified
verify_iff_example = verify_iff external signed (text "root") verified

abbrev two_to_nine : PolicyProperty
two_to_nine = record { operation = text "in-range"; reference = string (text "2..9") }

evaluate_integer_iff_example :
    (evaluate_integer two_to_nine 5 none ≡ ok true)
    ↔ Fits (text "in-range") 5 none (string (text "2..9"))
evaluate_integer_iff_example = evaluate_integer_iff two_to_nine 5 none

abbrev from_june : PolicyProperty
from_june = record {
  operation = text "greater-or-equal";
  reference = string (text "2023-06-19T00:00:00Z");
}

evaluate_string_iff_example :
    (evaluate_string from_june (text "2024-01-01T00:00:00Z") none ≡ ok true)
    ↔ Permits
        (text "greater-or-equal")
        (text "2024-01-01T00:00:00Z")
        none
        (string (text "2023-06-19T00:00:00Z"))
evaluate_string_iff_example = evaluate_string_iff from_june (text "2024-01-01T00:00:00Z") none
