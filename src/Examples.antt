-- ===== src/Examples.antt =====
-- The theorems at concrete inputs, and the data that these share.
mod Policies
mod Engine
mod Sessions
mod Codes
mod Lockouts
mod Logouts
mod Logins
mod Callbacks
mod Resets
mod Filters
mod Stores
mod Endpoints
mod Listings
mod Writes
mod Refreshes
use rustbase.Base.{ℕ, Str, codes, Option, ◌∷◌}
use rustbase.Base.Int.{pos}
use rustbase.Policy.{PolicySpec, range}
use rustbase.Auth.{Claims, TokenRole}

abbrev pub between : ℕ → ℕ → PolicySpec ℕ
between a b = range (record { min = pos a; max = pos b })

abbrev pub uploads : Str
uploads = codes "uploads"

abbrev pub acme : Str
acme = codes "acme"

abbrev pub widgets : Str
widgets = codes "widgets"

abbrev pub shop : Str
shop = codes "shop"

abbrev pub token : TokenRole → Option Str → Option Str → Claims
token role workspace app = record {
  sub = codes "ada";
  role = role;
  workspace = workspace;
  app = app;
  iat = 0;
  exp = 900;
  jti = codes "1";
}

-- A function in the place of the digest.
abbrev pub digest : Str → Str
digest s = 0 ∷ s

abbrev pub ada : Str
ada = codes "ada"

abbrev pub bob : Str
bob = codes "bob"
