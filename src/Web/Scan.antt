-- ===== src/Web/Scan.antt =====
-- From a printed label to a route: `QrLabel::url` of crates/web/src/qr.rs and `uppercase_scan_path` of
-- crates/web/src/main.rs; and the version that crates/web/src/version.rs shows.
pub mod Route
use duck_voyage.Prelude.{
  ◌≡◌, refl, ℕ, Bool, true, false, not, Option, none, some, is_some, List, [], ◌∷◌, ◌++◌, ◌==◌,
  if◌then◌else◌, ap, take, drop, length, and_then, map_option,
}
use duck_voyage.Prelude.Text.{Text, codes, contains}
use duck_voyage.Domain.Codes.{DuckCode}
use duck_voyage.Web.Config.{Platform}
use duck_voyage.Web.Config.Providers.{strip_prefix}

-- `str::to_uppercase`, a character at a time.
unfoldable pub to_uppercase : Platform → Text → Text
to_uppercase platform [] = []
to_uppercase platform (c ∷ s) = platform.to_uppercase c ++ to_uppercase platform s

-- `QrLabel::url`
unfoldable pub url : Platform → Text → DuckCode → Text
unfolding to_uppercase
url platform base_url code = to_uppercase platform base_url ++ (codes "/D/" ++ code.as_str)

-- The path and the query of a request.
pub record Target : Type 0 where
  pub path : Text
  pub query : Option Text

abbrev pub rewritten : (Target → Bool) → Target → Option Text → Target
rewritten accepts target none = target
rewritten accepts target (some rest) =
    let lowered : Target = record target { path = codes "/d/" ++ rest } in
    if accepts lowered then lowered else target

-- `uppercase_scan_path`; `accepts` says whether the crate http takes a target as a URI's.
unfoldable pub uppercase_scan_path : (Target → Bool) → Target → Target
uppercase_scan_path accepts target =
    rewritten accepts target (strip_prefix (codes "/D/") target.path)

-- `BuildInfo::distinct_sha`, of a version and an ASCII hash.
unfoldable pub distinct_sha : Text → Text → Option Text
distinct_sha version sha = if contains version (take 7 sha) then none else some sha
