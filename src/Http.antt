-- ===== src/Http.antt =====
-- What the middleware uses of package net/http: headers, requests, handlers as programs over a
-- response writer, and the server's own response writer.
pub mod Headers
pub mod Program
pub mod Server
pub mod Logging
pub mod Refusal
pub mod JsonReply
pub mod Final
