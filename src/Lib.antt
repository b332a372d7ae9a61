-- ===== src/Lib.antt =====
-- dev.box: SSH access to personal development boxes on Kubernetes. ContainerSSH is the gateway; three
-- programs of the repository serve it. They are modelled here.
--
-- auth-server decides on logins. A login is a request to the webhook; its handler asks authentik for
-- the user of a public key, then applies two gates, the list of templates and the required group.
--   Auth/Authentik   auth-server/authentik.go: `lookupUser`, `userInGroup`, `listUsers`, `usersURL`.
--   Auth/Handler     auth-server/auth_handler.go: `OnPassword`, `OnPubKey`, `OnAuthorization`.
--   Auth/Webhook     auth-server/webhook.go: `ServeHTTP`, the three endpoints, `writeDecision`.
--   Auth/Startup     auth-server/main.go: the configuration from the environment.
--   Auth/Main        auth-server/main.go: `main`, by Service.
--
-- config-server answers with the configuration of the pod that a login gets. It loads the template
-- that the SSH username names, makes it the owner's box, ensures its claims, or serves the settings
-- application together with the objects that let the owner manage the boxes.
--   Config/App          ContainerSSH's configuration, as far as it is read or written.
--   Config/Naming       config-server/persistent.go: pod names, owner labels, hashes.
--   Config/Templates    config-server/handler.go and storage.go: loading, the cache, `readClaims`; and
--                       owner_access.go: `persistentTemplates`. Races has the requests that share
--                       the cache, each in two steps, while the directory changes.
--   Config/Persistent   config-server/persistent.go: the cap and the identity of a box.
--   Config/Storage      config-server/storage.go: `applyStorage`, `ensureClaim`.
--   Config/Access       config-server/owner_access.go: service account, role and binding. Eligible says
--                       which templates are to be listed.
--   Config/SettingsApp  config-server/settings.go.
--   Config/Handler      config-server/handler.go: `OnConfig`.
--   Config/Startup      config-server/main.go: the configuration from the environment.
--   Config/Main         config-server/main.go: `main`, by Service.
--
-- Service is the process of a server after its start, in both `main.go`: `main`, the thread that runs
-- ContainerSSH's service and the thread that waits for a signal. Each is a function to its next state,
-- or to none where it waits; a run interleaves them with signals and the end of the service.
--
-- settings-tui is the settings application, a Bubble Tea program that lists and deletes boxes.
--   Settings/Boxes      settings-tui/boxes.go: the trusted inputs and the formats.
--   Settings/Pod, Kube  settings-tui/kube.go: `podInfo` and the two clients.
--   Settings/Startup    settings-tui/main.go and kube.go: `run` and `newBoxClient`.
--   Settings/Rows       settings-tui/model.go: one row for each template, `apply`.
--   Settings/Model      settings-tui/model.go: `Update` and what it calls. An update is a function from
--                       a model and a message to a model and commands, or to no result where Go panics.
--                       Model/World runs it among the commands in flight, as a step relation;
--                       Model/Dialog is the machine of three phases that its dialog implements;
--                       Model/Rounds has the goroutines of one refresh.
--   Settings/View       settings-tui/view.go: `renderLines`, down to the bytes of each line. View/Style
--                       has the colours and the padding, Frame the panes' frames, Rows the rows of
--                       both layouts, Dialog the confirmation, Panes the two panes, Screen the whole;
--                       Height, PanesFit, Fits, Layout and Scroll are about the lines' count and
--                       order, Styled and Reached about their bytes.
--
-- Together states what config-server and settings-tui must agree on: Environment and Session run the
-- application in the environment of the pod that the server answers with, Permitted compares what it
-- asks of the cluster with the role that the server ensures, and Isolation with the boxes of others.
-- Strings is what the programs use of Go's standard library, over bytes: a text is the list of its
-- bytes. Common has the shared types and lemmas. Tests runs the definitions, and the theorems, at
-- concrete inputs.
--
-- Parameters, which stand for code outside the repository: `sha256`, of which a digest of 32 bytes is
-- assumed where needed; `Backend` (JSON, net/url and HTTP for authentik), `Codec` (JSON and base64),
-- `Metadata` (ContainerSSH's), `System` (environment and files); `Store` (the template directory and
-- YAML), `ObjectApi` and `PodApi` (client-go), `Retry` (its retries); `Cluster` and `Host` (HTTP, JSON,
-- the environment, the terminal); `Display` (the width and the truncation of a text, the printable
-- runes). What is assumed of a cluster is that a call that succeeds answers with what is stored, and
-- echoes the parts that it was given (Config/Access/Held); other clients may change it at any time,
-- so each call may meet any state.
--
-- The state of the cluster is passed from call to call. Errors are values. Loops are recursion on the
-- list that they walk; where a text is trimmed or a number printed, the fuel is its length, or one
-- more than the number, which is enough since a step takes a byte off, or divides by ten.
--
-- Not modelled: the listeners and TLS, which are ContainerSSH's; the logs but for what the loggers are
-- given at the start and the end of a server, and the level that decides what of it is written; the
-- terminal library's drawing of the lines and its loop; and the test program
-- tests/config-merge, which only calls ContainerSSH.
pub mod Common
pub mod Strings
pub mod Service
pub mod Config
pub mod Auth
pub mod Settings
pub mod Together
pub mod Tests
