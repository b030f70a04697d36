-- ===== src/Policy.antt =====
-- src/axiom/policy: which tool calls are allowed, refused, or asked about. What `urllib`, `socket`,
-- `ipaddress`, `pathlib`, `fnmatch` and `str.casefold` compute are arguments, in `Platform`.
pub mod Platform
pub mod Network
pub mod Urls
pub mod Granted
pub mod Permissions
