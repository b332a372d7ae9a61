-- ===== src/Auth/Main.antt =====
-- auth-server/main.go: `main`, from the environment to the exit. `new_server` is ContainerSSH's
-- `http.NewServer`, with the cause of its failure; what it says of its address is left out. The log
-- is what the logger is given, whatever its level then lets through, and its texts are their codes.
use dev_box.Common.{List, [], ◌∷◌, ◌++◌, Text, codes, Result}
use dev_box.Auth.Startup.{
  StartError, logger_failed, url_missing, token_missing, file_unreadable, templates_not_json,
  templates_null, template_name_empty, System, Startup, configure,
}
use dev_box.Service.{Codes, Process, boot}

abbrev pub log_codes : Codes
log_codes = record {
  start_failed = codes "AUTH_DEV_START_FAILED";
  run_failed = codes "AUTH_DEV_RUN_FAILED";
  shutdown = codes "AUTH_DEV_SHUTDOWN";
  exit_error = codes "AUTH_DEV_EXIT_ERROR";
}

-- What is said while the token is read, and before the templates are.
abbrev token_said : List Text
token_said = codes "AUTH_DEV_ENV" ∷ []

abbrev lookup_said : List Text
lookup_said = codes "AUTH_DEV_ENV" ∷ codes "AUTH_DEV_KEY_LOOKUP" ∷ []

-- `fail`. Without a logger there is a line on the error output.
abbrev fail : List Text → List Text
fail log = log ++ codes "AUTH_DEV_START_FAILED" ∷ []

abbrev pub failure_log : StartError → List Text
failure_log logger_failed = []
failure_log url_missing = fail []
failure_log token_missing = fail token_said
failure_log (file_unreadable file) = fail token_said
failure_log templates_not_json = fail lookup_said
failure_log templates_null = fail lookup_said
failure_log template_name_empty = fail lookup_said

unfoldable pub main : System → (Startup → Result Text (Unit {0})) → Process
main system new_server = boot log_codes failure_log (λ s. lookup_said) new_server (configure system)
