-- ===== src/Tests/Fixtures.antt =====
-- The data of the tests: a hash, and templates.
use dev_box.Common.{◌%◌, refl, false, [], ◌∷◌, none, some, Text, codes, length, arith, pos}
use dev_box.Config.App.{AppConfig, Security, Claim, unset}
use dev_box.Config.Naming.Digest.{IsDigest}

-- 32 bytes, of which the first is the length of the text.
abbrev pub digest : Text → Text
digest s =
    length s % 256
    ∷ 1
    ∷ 2
    ∷ 3
    ∷ 4
    ∷ 5
    ∷ 6
    ∷ 7
    ∷ 8
    ∷ 9
    ∷ 10
    ∷ 11
    ∷ 12
    ∷ 13
    ∷ 14
    ∷ 15
    ∷ 16
    ∷ 17
    ∷ 18
    ∷ 19
    ∷ 20
    ∷ 21
    ∷ 22
    ∷ 23
    ∷ 24
    ∷ 25
    ∷ 26
    ∷ 27
    ∷ 28
    ∷ 29
    ∷ 30
    ∷ 255
    ∷ []

pub digest-IsDigest : IsDigest digest
digest-IsDigest = record { length_32 = λ s. refl; bytes = λ s. ground arith }

abbrev security : Security
security = record {
  default_mode = unset;
  force_command = [];
  max_sessions = 0;
  shell = unset;
  tty = unset;
  command = unset;
  subsystem = unset;
  env = unset;
  signal = unset;
  forwarding = unset;
  reverse_forwarding = unset;
  socket_forwarding = unset;
  socket_listen = unset;
  x11_forwarding = unset;
}

-- A template without a mode, which is persistent on a server that is.
abbrev pub app : AppConfig
app = record {
  security = security;
  pod = record {
    mode = [];
    name = [];
    generate_name = [];
    labels = (codes "tier", codes "dev") ∷ [];
    create_missing_pods = false;
    shell_command = [];
    agent_path = [];
    idle_command = [];
    spec = record {
      service_account_name = [];
      automount_token = none;
      restart_policy = [];
      grace_seconds = none;
      security = none;
      containers = [];
      volumes = [];
    };
  };
  rest = [];
}

abbrev pub claim : Claim
claim = record {
  name = codes "home";
  namespace = [];
  labels = [];
  annotations = [];
  spec = [];
  storage_request = some (pos 1);
  owner_references = [];
  terminating = false;
}
