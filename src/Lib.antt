-- ===== src/Lib.antt =====
-- The web application of the TBD platform, a deployment platform: its core logic and what it keeps.
--
-- The application (web/src) is a Next.js program. Its pages call the platform's API through one client,
-- a session provider holds the user of a browser tab, a hook follows log streams, server routes run the
-- sign-in through an auth service, layouts guard pages by role, and the landing page simulates a
-- terminal with a file system. The modules here are named for these parts.
--
--   Prelude: shared names, Boolean tests, lists and JavaScript's text methods.
--   Types: web/src/lib/types.ts, one record for each interface and one data type for each union.
--   Utils: web/src/lib/utils.ts. Utils.Buckets counts deploys by day for this file and for the overview.
--   Client: web/src/lib/api.ts. `answer` is what `request` returns or throws once `fetch` has settled,
--     `request_headers` what it sends. Client.Endpoints has one module for each group of `api`; a call is
--     a `Call` with its method, path and body.
--   Session: web/src/contexts/auth.tsx. A handler maps the session and the answers of its requests to the
--     session that it leaves. Its calls are those of Client.
--   LogStream: web/src/hooks/useLogStream.ts, a state machine over the events of an `EventSource`.
--   ProjectPage: web/src/app/dashboard/[projectId]/page.tsx, the loading of a project and its polling. A
--     call of `fetchAll` is split into its start and its answer, so calls overlap in any order. The
--     tabs are Overview, DeploysTab, BuildsTab, Settings and MembersTab: a handler `handleX` is `start_x` up to
--     its request and `finish_x` behind the reply. DeploysTab.Flight, Settings.Acknowledged and
--     BuildsTab.InOrder relate the states that clicks and replies reach.
--   Sso: web/src/lib/sso.ts, web/src/app/api/auth/oidc, web/src/app/auth/sso-bridge/page.tsx and the
--     messages of web/src/app/login/page.tsx. The callback's guards give a verdict, and the response
--     follows from it; the bridge page adopts the session by Session.
--   Access: web/src/components/app-shell.tsx, web/src/components/sidebar.tsx and the layouts of
--     web/src/app/{dashboard,settings,admin,staff,faculty}.
--   Pipeline: web/src/components/deploy-pipeline.tsx.
--   Terminal: web/src/app/page.tsx. Terminal.Path has the paths, Terminal.Files the file system as a
--     store of nodes by address, since the program shares and mutates its nodes, Terminal.Shell the
--     reading of a command line, Terminal.History the arrow keys, Terminal.Variables the expansion of
--     tokens, Terminal.Calculator `safeEvalMath` with a grammar of its own, Terminal.Commands the commands
--     (`run_command_tokens` is `runCommandTokens`) and Terminal.Run the chaining (`run_shell` is
--     `runShell`). The commands not modelled are an argument, `others`, which prints and may change files; `factor`
--     is modelled beside it, since it need not end.
--   Examples: the theorems at concrete inputs.
--
-- Every function here ends by structural recursion but two, which have fuel. The calculator's parser has
-- three steps for each character of the text and three more, since a parser calls at most three others
-- before it takes a character. The loops of `factor` have one round more than their value, which falls in
-- the inner loop while the divisor rises to it in the outer. Times and counts are natural numbers. What comes from outside is an argument: the
-- answers of `fetch`, `JSON.parse` and `JSON.stringify`, URL and base64 encoders, random values, digests,
-- JavaScript's floating-point numbers, dates, `trim` and `sort`, and the decimal text of a number.
--
-- Not modelled: the markup, the project page's repository banner and its other tabs, the other pages, `cp`
-- and most of the printing commands of the terminal, its completion and its animation, `requestOrigin` of web/src/lib/sso.ts, and the parts of the repository that are
-- not the web application: the Python API, the infrastructure, the delivery scripts and the project
-- templates.
pub mod Prelude
pub mod Types
pub mod Utils
pub mod Client
pub mod Session
pub mod LogStream
pub mod ProjectPage
pub mod Sso
pub mod Access
pub mod Pipeline
pub mod Terminal
pub mod Examples
