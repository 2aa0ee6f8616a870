-- ===== src/Lib.antt =====
-- Domus keeps users' files, their sessions, shares, background tasks and trash. This library models
-- the parts of its Go program that keep and change that state.
--
-- Parts and files:
-- - Model.Trash, Model.File, Model.User, Model.Session, Model.Share, Model.Task, Model.Workspace:
--   the repositories of internal/model/mem_repos.go, one module for each (`memTrashRepo` and so on),
--   with the records of internal/model/trash.go, file.go, user.go, session.go, share.go and task.go.
--   A method is the function of its name in snake_case; `Delete` is `remove`. It takes the
--   repository's state last and gives back the new state, with its result in a pair if it has one,
--   or `Result` if it can fail (Model.Result has the errors).
-- - Model.Cleanup: `NewMemRepos` and the deletion of a user from all repositories.
-- - Auth.Timed and Auth.Challenge: `timedStore` and `ChallengeManager` of internal/auth/challenge.go.
-- - Auth.Totp: `ValidateTOTP` and `computeTOTP` of internal/auth/totp.go.
-- - Ws.Hub and Ws.Router: `Hub` of internal/ws/hub.go, subscriptions of internal/ws/conn.go, and
--   `Router` of internal/ws/router.go. A connection is its id; a heap holds its state.
-- - Handler.Clean, Handler.Idempotent and Handler.TrashPath: the paths of
--   internal/handler/pathspace.go and trash.go, over path.Clean for paths that begin with a slash.
-- - Handler.Recovery: what a crash left in the trash, `RecoverTrash` and what it calls in
--   internal/handler/trash.go, with `permanentlyDeletePathWithProgress` of pathspace.go.
-- - Handler.Login: `handleVerify`, `handleLogin` and `handleLogout` of internal/handler/auth.go.
-- - Handler.Admin: the handlers of internal/handler/admin.go that change users, and
--   admin_root_guard.go. A handler is a function from the request's fields and the state to the
--   answer and the new state; what follows a call that can fail is a function of the call's result.
-- - Handler.Upload and Handler.Names: sizes, parts, requests and free names of
--   internal/handler/upload.go.
-- - Middleware: `AuthRequired`, `WebSocketUpgrade`, `RoleRequired` and the paths of
--   internal/middleware/middleware.go. Auth.Cookie: internal/auth/cookie.go.
-- - Dict: Go maps with text keys, as lists of entries without order. A loop over a map goes through
--   the list, and the theorems hold for every list, so for every order of iteration.
-- - Prelude: Go strings as lists of bytes, int64 with wrap-around (Int64), white space (Blank, and
--   strings.TrimSpace with Unicode's white space in UTF-8 in Trim), sorting, and tests on numbers.
-- The modules below a component (Invariant, Laws, Transitions and so on) prove what it does, and
-- the modules named Examples apply the results to concrete states.
--
-- Every method of a repository holds the mutex from its first to its last line, so concurrent calls
-- are sequences of calls, and the types `Call` list them. A handler makes several such calls; here
-- it is served to its end before the next one begins, and what two requests at the same time do
-- between each other's calls is not modelled, but for the guard of the last root user, which
-- Handler.Admin.Race asks for two requests before either of them changes a role. A reading of the clock is an argument, in
-- nanoseconds since the zero time, one for each time that the code reads it. What packages uuid,
-- bcrypt and crypto/rand return are arguments too, as are HMAC-SHA1, base32 decoding and
-- strings.ToLower. A float64 is its bit pattern. sort.Slice is insertion by the same comparison.
-- The JSON answer of the web framework always succeeds and returns nil. The search for a free
-- name and the listing of all ready trash entries run on fuel: one more than the number of used
-- names, or of ready entries, is enough. Other loops go over lists or a number of rounds.
--
-- Not modelled: the database repositories (SQL through gorm), the other HTTP handlers, messages to
-- browsers and the audit log, sockets and JSON, DOFS mounts, the object store, media workers,
-- commands and the front end.
pub mod Prelude
pub mod Dict
pub mod Model
pub mod Auth
pub mod Ws
pub mod Handler
pub mod Middleware
