-- ===== src/Js.antt =====
-- What the program uses of JavaScript and Node: buffers, exceptions, and text as code points.
pub mod Buffer
pub mod Text
pub mod Numbers
pub mod Map
pub mod Strings
