-- ===== src/Lib.antt =====
-- duck.voyage: travelling rubber ducks with printed codes, a Rust workspace of four crates.
--
-- crates/domain has the values that need no database: base-36 digits, the Damm check character,
-- flock prefixes and duck codes, the codec between codes and sequence numbers, and the validated
-- texts, IMO numbers and coordinates. crates/storage keeps users, flocks, ducks, sightings and what
-- hangs off them in PostgreSQL. crates/auth signs users in with the configured OIDC providers.
-- crates/web reads the configuration and answers requests: a scanned code
-- goes through the validation funnel to a duck and its flock, and a handler then checks who asks
-- and calls the repositories.
--
-- The files and the code they are about:
--   Prelude         Boolean tests, lists, outcomes (a value, an error or a panic), texts as lists of
--                   code points, tables as lists of rows, code with a state, i64 parsing
--   Sweep           checks of all small numbers by computation
--   Domain.Base36   crates/domain/src/base36.rs: `digit_of`, `char_of`
--   Domain.Damm     crates/domain/src/damm.rs: `sigma`, `build_table`, `check_digit`, `validate`
--   Domain.Codes    crates/domain/src/codes.rs: `parse_flock`, `parse_duck`, `assemble` and the
--                   accessors of codes
--   Domain.Codec    crates/domain/src/codec.rs: `new_codec`, `encode`, `decode`
--   Domain.Profanity, BoundedText, Imo, Coords, Entities
--                   the files of those names in crates/domain/src (text.rs for BoundedText)
--   Storage.Rows    crates/storage/src/rows.rs: rows and their conversion into entities
--   Storage.Db      the tables, as one record; a repository's method is an action on it
--   Storage.Users, Flocks, Ducks, Sightings, Social, Admin, Views, Boards, Overviews
--                   crates/storage/src/repos.rs, a module for each repository or a few of them, the
--                   last three with the read models of summaries.rs
--   Storage.Integrity
--                   the foreign keys as a property of the tables; Reach has the calls of the
--                   repositories as steps
--   Storage.Flocks.Draw
--                   which of the prefixes drawn a flock gets
--   Storage.Following
--                   the follows as a set that the calls build, and that the rows stand for
--   Storage.Readable
--                   the rows that become entities: what the calls of the repositories leave, where
--                   their arguments were parsed, and the queries over such rows
--   Storage.Kept    what a property of the tables needs to be kept by the loops over statements
--   Auth.Error, Apple, Providers
--                   the files of those names in crates/auth/src
--   Web.State, Form crates/web/src/state.rs, error.rs and handlers/mod.rs
--   Web.Config      crates/web/src/config.rs: `from_env` in Boot, `oidc_from_env` in Providers
--   Web.Duck        crates/web/src/handlers/duck.rs: the funnel, then Handlers, Moderation and Pages
--   Web.Flock, AdminRoutes
--                   crates/web/src/handlers/flock.rs and the deletes of admin.rs; Web.Flock.Register
--                   has the ducks of the tables as a register of the codes that were minted
--   Web.Auth        crates/auth/src/session.rs; Login has crates/web/src/handlers/auth_routes.rs
--   Web.Pages       the pages of crates/web/src/handlers/public.rs, me.rs and admin.rs, and the answers
--                   to errors of crates/web/src/error.rs
--   Web.Router      the routes of crates/web/src/main.rs and the handlers they call
--   Web.Views       crates/web/src/views.rs: the times and the vessel picker; Markup has trees for the
--                   macro `html!`, Layout the frame, Duck, Own and Site the templates
--   Web.Scan        the URL of crates/web/src/qr.rs, the rewriting of paths in main.rs, version.rs
--   Examples        the theorems at concrete labels, tables and requests
--
-- State and concurrency: a method of a repository is one transaction or a few statements, and runs
-- alone; a handler is a sequence of them, and what was written before a failure stays written. `now` of
-- the tables is the clock of the database.
--
-- Parameters: FF1 over AES-256, with the documented behaviour that it permutes the numeral strings of
-- a length; the object store; the decoding and encoding of images; datetime and f64 parsing; the crates
-- openidconnect, jsonwebtoken, serde_json and hex; whether the session store took a write; the parsing of
-- socket addresses and URIs, and Unicode case; random draws; the collation of names.
--
-- Bounds: sequence numbers are 1..=10000, so the loop of `mint_batch` gets 10001 rounds, each of which
-- raises the candidate. The search for an unused prefix has the 64 attempts of the source. The u8, u16
-- and u32 arithmetic of the domain is written with its wrap-around. The keys of the configuration are read
-- for at most the 65536 generations of a u16; past them the model panics, as the range of the source
-- does in a checked build. An instant counts seconds from the earliest one of jiff, and what leaves
-- jiff's range of instants or spans is a panic.
--
-- Not modelled: the texts of the stylesheet and the script of crates/web/src/views.rs, which are arguments; the
-- rendering of QR codes; that a TEXT column of PostgreSQL refuses the character U+0000, which the bounded
-- texts take (the tables store any text); which of the rows that tie an ORDER BY comes first (the model takes
-- the order of the table); what the server's crates make of its routes and limits, and its shutdown.
pub mod Prelude
pub mod Sweep
pub mod Domain
pub mod Auth
pub mod Storage
pub mod Web
pub mod Examples
