-- ===== src/Config/Main.antt =====
-- config-server/main.go: `main`, from the environment to the exit. `new_server` is ContainerSSH's
-- `webhook.NewServer`, with the cause of its failure. The log is what the logger is given,
-- whatever its level then lets through, and its texts are their codes.
use dev_box.Common.{List, [], ◌∷◌, Text, codes, Result, if◌then◌else◌}
use dev_box.Config.SettingsApp.{Settings}
use dev_box.Config.Startup.{
  StartError, logger_failed, settings_image_missing, invalid_operating_mode, no_kube_client, System,
  HttpConfig, Startup, configure,
}
use dev_box.Service.{Codes, Process, boot}

abbrev pub log_codes : Codes
log_codes = record {
  start_failed = codes "CONFIG_SERVER_START_FAILED";
  run_failed = codes "CONFIG_SERVER_RUN_FAILED";
  shutdown = codes "CONFIG_SERVER_SHUTDOWN";
  exit_error = codes "CONFIG_SERVER_EXIT_ERROR";
}

-- Without a logger there is a line on the error output.
abbrev pub failure_log : StartError → List Text
failure_log logger_failed = []
failure_log (invalid_operating_mode mode) = codes "CONFIG_SERVER_INVALID_OPERATING_MODE" ∷ []
failure_log settings_image_missing = codes "CONFIG_SERVER_SETTINGS_SETUP_FAILED" ∷ []
failure_log (no_kube_client e) = codes "CONFIG_SERVER_KUBERNETES_SETUP_FAILED" ∷ []

abbrev pub said : Startup → List Text
said s = if s.warns then codes "CONFIG_SERVER_CAP_DISABLED" ∷ [] else []

unfoldable pub main : System → (HttpConfig → Settings → Result Text (Unit {0})) → Process
main system new_server =
    boot log_codes failure_log said (λ s. new_server s.http s.handler) (configure system)
