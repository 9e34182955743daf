-- ===== src/Worker/Tests.antt =====
-- A request, run.
use tsi.Base.{All, text_beq, some, ◌≡◌, refl, none, true, [], ◌∷◌, ◌++◌, false, text_eq}
use tsi.Base.Exec.{ok}
use tsi.Base.Text.{Text, txt, newline}
use tsi.Connector.{reply_ok, read_message}
use tsi.World.{world, config, session, kernel}
use tsi.Worker.{
  State, Services, Settings, commands, send, find_command, find_identity, serve, call_of,
}
use tsi.Worker.{next_request}
use tsi.Worker.Functions.{ping_uid}
use tsi.Worker.Dispatch.{First, find_command-First}
use tsi.Bss.{unknown}
use tsi.Worker.UserInfo.{lines}
use tsi.Worker.Table.{Machine, function, on_channel}
use tsi.Worker.Serving.{next_request-function}
use tsi.Worker.Handling.{after_identity, serve-after_identity}

abbrev request : Text
request = txt "#TSI_IDENTITY a s" ++ (newline ∷ call_of (txt "TSI_PING_UID"))

find_command-First_example : First commands request (find_command commands request)
find_command-First_example = find_command-First commands request

-- No command of the table hides another one.
each_command : All (λ c. find_command commands (call_of c) ≡ some c) commands
unfolding find_command text_beq
each_command = (
  refl,
  (
    refl,
    (
      refl,
      (
        refl,
        (
          refl,
          (
            refl,
            (
              refl,
              (
                refl,
                (
                  refl,
                  (
                    refl,
                    (
                      refl,
                      (
                        refl,
                        (
                          refl,
                          (
                            refl,
                            (
                              refl,
                              (refl, (refl, (refl, (refl, (refl, (refl, (refl, (refl, tt)))))))),
                            ),
                          ),
                        ),
                      ),
                    ),
                  ),
                ),
              ),
            ),
          ),
        ),
      ),
    ),
  ),
)

-- Every function answers the same.
abbrev services : Services
services = record {
  describe = λ _. txt "error";
  version = txt "1";
  function = λ _ _ s. (ok tt, send (reply_ok none) s);
  open_session = λ _ s. (ok tt, s);
}

abbrev settings : Settings
settings = record { config = config; open_user_sessions = false; one_shot = false }

abbrev state : State
state = record { connector = record { control_in = []; control_out = [] }; session = session }

serve-after_identity_example :
    serve world kernel settings services (txt "TSI_PING_UID") request state
    ≡ after_identity world kernel settings services
        (txt "TSI_PING_UID")
        request
        state
        (find_identity request)
serve-after_identity_example =
    serve-after_identity world kernel settings services (txt "TSI_PING_UID") request state refl refl

abbrev queued : State
queued = record state {
  connector = record {
    control_in = request ++ (txt "ENDOFMESSAGE" ++ newline ∷ []);
    control_out = [];
  };
}

abbrev site : Machine
site = record {
  os = world;
  version = txt "1";
  effective_uid = none;
  account = record {
    keyfiles = [];
    open_file = λ path. lines [];
    get_userkeys_cmd = none;
    get_userinfo_cmd = none;
    run_command = λ cmd. (true, []);
  };
  run_script = λ script discard. (true, []);
  environment = record { home = []; logname = []; user = [] };
  convert_status = λ state. unknown;
  extract_lines = λ output. [];
  qstat_cmd = txt "squeue";
  get_processes_cmd = txt "ps -e";
  jobs = record {
    details_cmd = txt "scontrol";
    abort_cmd = txt "scancel %s";
    hold_cmd = txt "hold";
    resume_cmd = txt "release";
    parse_details = λ output. [];
    dumps = λ result. txt "{}";
    run_command = λ cmd. (true, []);
  };
  dumps = λ result. txt "{}";
  get_partitions_cmd = txt "sinfo";
}

abbrev table_services : Services
table_services = record services {
  function = λ command msg. elim (function site command) [
    | none ↦ services.function command msg
    | some f ↦ f msg
  ];
}

next_request-function_example :
    (next_request world kernel settings table_services queued).1.connector.control_in ≡ []
unfolding read_message find_command function text_beq
next_request-function_example =
    next_request-function world kernel settings table_services site (txt "TSI_PING_UID") request
      (λ msg. on_channel (ping_uid site.version site.effective_uid))
      (read_message queued.connector).1 queued refl refl refl (λ t. refl)
      (λ _. record { at = λ t. refl })
