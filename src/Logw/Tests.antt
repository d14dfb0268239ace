-- ===== src/Logw/Tests.antt =====
-- Runs of the second generation's logger, and an example of the result about it.
use go_utility.Base.{String, ◌≡◌, refl, true, none, some, [], ◌∷◌, string_eq, arith}
use go_utility.Logw.{
  Entry, inject_log_id, get_log_id, debug, info, Format, stdout, file, broker, Config,
  default_logger, init, ctx_log, build_log_attributes,
}
use go_utility.Logw.Ids.{injects, adds_other, enter, ctx_log-enter}

abbrev service_log : Config
service_log = record {
  level = "debug";
  format = "JSON";
  write_to_file = true;
  file_path = "app.log";
  send_to_broker = true;
  broker_writer = some 7;
}

-- A file that cannot be opened leaves the logger of before.
init_no_file :
    init {E = String} service_log (some "denied") default_logger ≡ (default_logger, some "denied")
unfolding init
init_no_file = refl

init_all_writers : (init {E = String} service_log none default_logger).0 ≡ record {
  level = debug;
  format = Format.json;
  writers = stdout ∷ file "app.log" ∷ broker 7 ∷ [];
}
unfolding init
init_all_writers = refl

-- An empty identifier is present, so that no fresh one replaces it and the line has none.
empty_id : (ctx_log info (inject_log_id "fresh" (Entry.log_id "" ∷ [])) "hello").attributes ≡ []
unfolding ctx_log inject_log_id build_log_attributes get_log_id
empty_id = refl

ctx_log-enter_example :
    (ctx_log info
      (enter (injects "a" ∷ adds_other ∷ injects "b" ∷ []) (Entry.other ∷ []))
      "hello").attributes
    ≡ ("x-log-id", "a") ∷ []
ctx_log-enter_example =
    ctx_log-enter "a" "a" (adds_other ∷ injects "b" ∷ []) (Entry.other ∷ []) info "hello" refl
      (λ h. ground (arith, h, string_eq.beq_iff "a" ""))
