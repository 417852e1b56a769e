-- ===== src/Web/Flock/Encoding.antt =====
-- The closure that `mint` (crates/web/src/handlers/flock.rs) hands to `mint_batch`: its codes can be read
-- back from the table.
use duck_voyage.Domain.Codes.Scan.{Mangled_refl, parse_duck-mangled}
use duck_voyage.Domain.Codec.{Ff1, DuckCodec}
use duck_voyage.Domain.Codec.RoundTrip.{encode-IsDuckCode}
use duck_voyage.Domain.Entities.{Flock}
use duck_voyage.Storage.Readable.Calls.{Encodes}
use duck_voyage.Web.Flock.{mintable}
use duck_voyage.Web.Flock.Registry.{Keyed, made}

-- The codes that are minted for a flock with a known key parse as they are.
pub mintable-Encodes :
    (fpe : Ff1) (codec : DuckCodec fpe) (flock : Flock)
    → Keyed fpe codec flock
    → Encodes (mintable fpe codec flock)
mintable-Encodes fpe codec flock keyed s c h e =
    let minted = made fpe codec flock keyed s c e in
    let (ds, valid) =
      encode-IsDuckCode fpe codec flock.generation keyed.cipher keyed.known flock.code keyed.prefix
        s c keyed.valid minted in
    parse_duck-mangled c ds c.as_str valid (Mangled_refl c.as_str)
