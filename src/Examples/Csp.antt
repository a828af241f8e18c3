-- ===== src/Examples/Csp.antt =====
-- Runs of app/src/csp-enforce.ts and app/src/csp-translation.ts.
use zeolite.Prelude.{
  ℕ, ◌≡◌, ◌↔◌, inl, inr, refl, Bool, true, false, Option, none, some, List, [], ◌∷◌, ◌==◌, text_eq,
  if◌then◌else◌,
}
use zeolite.Prelude.Maps.{get}
use zeolite.Text.{Text, txt}
use zeolite.Examples.{simple_url}
use zeolite.Examples.Codec.{latin}
use zeolite.Csp.{CspRegistry, csp_set_client, csp_clear_client, csp_gate}
use zeolite.Csp.Policy.{plan_engine_csp}
use zeolite.Csp.Policy.Refused.{IsRefused, IsBad, name_of, plan_engine_csp-IsRefused}
use zeolite.Csp.Gate.{Blocks, csp_gate-Blocks}
use zeolite.Csp.Registry.{set_client, run, run-cleared}
use zeolite.Csp.Translation.{Headers, csp_header, apply_experimental_csp}
use zeolite.Csp.Translation.Denies.{Enforced, apply_experimental_csp-Enforced}

abbrev page : Text
page = txt "https://a.example/x"

abbrev script : Text
script = txt "https://b.example/s.js"

abbrev client : Text
client = txt "c1"

-- Scripts come from the page's own origin only.
abbrev policy : Text
policy = txt "script-src 'self'; img-src *"

abbrev served : CspRegistry
served = csp_set_client [] client (plan_engine_csp simple_url policy page)

blocked_script : (csp_gate simple_url served (some client) (txt "script") script).blocked ≡ true
unfolding csp_gate get zeolite.Prelude.list_beq zeolite.Csp.gate_client csp_set_client
    zeolite.Prelude.Maps.set zeolite.Csp.make_room zeolite.Csp.gate_url plan_engine_csp simple_url
    zeolite.Text.split zeolite.Csp.Policy.plan_text zeolite.Csp.Policy.unreadable zeolite.Text.trim
    zeolite.Csp.Policy.plan_parts zeolite.Csp.Policy.words zeolite.Csp.Policy.words_from
    zeolite.Csp.Policy.add_list zeolite.Csp.Policy.alpha_first zeolite.Csp.Policy.directive_name
    zeolite.Csp.Policy.hash_shaped zeolite.Csp.Policy.host_source zeolite.Csp.Policy.host_verdict
    zeolite.Csp.Policy.parse_source_list zeolite.Csp.Policy.parse_token zeolite.Csp.Policy.path_end
    zeolite.Csp.Policy.port_and_path zeolite.Csp.Policy.port_text zeolite.Csp.Policy.scheme_only
    zeolite.Csp.Policy.span zeolite.Csp.Policy.split_scheme zeolite.Csp.decide zeolite.Csp.decide_by
    zeolite.Csp.host_ok zeolite.Csp.path_ok zeolite.Csp.port_ok zeolite.Csp.scheme_ok
    zeolite.Csp.shown_port zeolite.Csp.source_matches zeolite.Csp.source_scheme
    zeolite.Csp.without_colon zeolite.Text.ends_with zeolite.Text.starts_with zeolite.Text.to_lower
    zeolite.Text.trim_end zeolite.Text.trim_start
blocked_script = refl

csp_gate-Blocks_example : Blocks simple_url served (some client) (txt "script") script
csp_gate-Blocks_example =
    (csp_gate-Blocks simple_url served (some client) (txt "script") script).0 blocked_script

-- The second `script-src` makes the policy unreadable.
abbrev twice : Text
twice = txt "script-src 'self'; script-src *"

twice-IsRefused : IsRefused twice
unfolding IsRefused IsBad name_of zeolite.Text.split zeolite.Csp.Policy.words
    zeolite.Csp.Policy.words_from zeolite.Prelude.list_beq zeolite.Text.to_lower
    zeolite.Csp.Policy.one_of
twice-IsRefused = inr (inr (inr (inr (inr (inl refl)))))

plan_engine_csp-IsRefused_example :
    (csp_gate simple_url
      (csp_set_client [] client (plan_engine_csp simple_url twice page))
      (some client)
      (txt "script")
      script).blocked
    ≡ false
plan_engine_csp-IsRefused_example =
    plan_engine_csp-IsRefused simple_url [] client (txt "script") script twice page twice-IsRefused

run-cleared_example :
    (csp_gate simple_url
      (run
        (set_client (txt "c2") (plan_engine_csp simple_url policy page) ∷ [])
        (csp_clear_client served (some client)))
      (some client)
      (txt "script")
      script).blocked
    ≡ false
unfolding zeolite.Csp.Registry.Spares zeolite.Prelude.list_beq
run-cleared_example =
    run-cleared simple_url served client (txt "script") script
      (set_client (txt "c2") (plan_engine_csp simple_url policy page) ∷ []) (refl, tt)

abbrev upstream : Headers
upstream = (csp_header, txt "object-src 'none'; base-uri 'NONE'") ∷ []

apply_experimental_csp-Enforced_example :
    Enforced upstream
      (apply_experimental_csp latin upstream upstream (txt "text/html; charset=utf-8") true).1
      (txt "text/html; charset=utf-8")
      true
unfolding apply_experimental_csp zeolite.Csp.Translation.is_html zeolite.Csp.Translation.type_after
    zeolite.Text.to_lower zeolite.Text.trim zeolite.Csp.Translation.ends_type get
    zeolite.Prelude.list_beq zeolite.Csp.Translation.apply_plan
    zeolite.Csp.Translation.plan_csp_translation zeolite.Examples.Codec.low_bytes zeolite.Text.split
    zeolite.Csp.Translation.candidate_of zeolite.Csp.Translation.emitted_names
    zeolite.Csp.Policy.words zeolite.Csp.Policy.words_from zeolite.Csp.Translation.fault
    zeolite.Csp.Policy.directive_name zeolite.Csp.Translation.only_none
    zeolite.Csp.Translation.reason_text zeolite.Csp.join_by zeolite.Prelude.Maps.delete
    zeolite.Prelude.Maps.set zeolite.Text.trim_end zeolite.Text.trim_start
apply_experimental_csp-Enforced_example =
    (apply_experimental_csp-Enforced latin upstream upstream (txt "text/html; charset=utf-8")
        true).0
      refl

-- A list that cannot be verified leaves the default list to decide: the policy admits this script, and it
-- is blocked.
abbrev mixed : Text
mixed = txt "default-src 'self'; script-src 'nonce-x' https://b.example"

blocked_by_default :
    (csp_gate simple_url
      (csp_set_client [] client (plan_engine_csp simple_url mixed page))
      (some client)
      (txt "script")
      script).blocked
    ≡ true
unfolding csp_gate get zeolite.Prelude.list_beq zeolite.Csp.gate_client csp_set_client
    zeolite.Prelude.Maps.set zeolite.Csp.make_room zeolite.Csp.gate_url plan_engine_csp simple_url
    zeolite.Text.split zeolite.Csp.Policy.plan_text zeolite.Csp.Policy.unreadable zeolite.Text.trim
    zeolite.Csp.Policy.plan_parts zeolite.Csp.Policy.words zeolite.Csp.Policy.words_from
    zeolite.Csp.Policy.add_list zeolite.Csp.Policy.alpha_first zeolite.Csp.Policy.directive_name
    zeolite.Csp.Policy.hash_shaped zeolite.Csp.Policy.host_source zeolite.Csp.Policy.host_verdict
    zeolite.Csp.Policy.parse_source_list zeolite.Csp.Policy.parse_token zeolite.Csp.Policy.path_end
    zeolite.Csp.Policy.port_and_path zeolite.Csp.Policy.port_text zeolite.Csp.Policy.scheme_only
    zeolite.Csp.Policy.span zeolite.Csp.Policy.split_scheme zeolite.Csp.decide zeolite.Csp.decide_by
    zeolite.Csp.host_ok zeolite.Csp.path_ok zeolite.Csp.port_ok zeolite.Csp.scheme_ok
    zeolite.Csp.shown_port zeolite.Csp.source_matches zeolite.Csp.source_scheme
    zeolite.Csp.without_colon zeolite.Text.ends_with zeolite.Text.starts_with zeolite.Text.to_lower
    zeolite.Text.trim_end zeolite.Text.trim_start
blocked_by_default = refl
