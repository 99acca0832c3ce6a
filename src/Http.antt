-- ===== src/Http.antt =====
-- frontend/src/lib/api.ts: the session token in localStorage and the calls of the server over HTTP.
--
-- `fetch` is an argument, a function from requests to responses: a promise that is rejected is
-- `none`, a body that is no JSON is absent. The encoding of an URL is the browser's, as is the
-- storage, which may be unavailable. What a call returns is the JSON that came, since a cast of
-- TypeScript checks nothing.
pub mod Token
pub mod Requests
pub mod Calls
pub mod Auth
pub mod Failures
mod Tests
