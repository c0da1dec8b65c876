-- ===== src/Host.antt =====
-- What the bridge (tools/transport_bridge/src/main.rs) takes from tokio: byte streams behind handles
-- in a world that every call may change. The operations are parameters of the model. An operation
-- that fails leaves a world too, so that what was written before the failure stays visible.
use muxly.Base.{
  ℕ, zero, suc, ◌≡◌, refl, [], ◌∷◌, ◌++◌, Bytes, Text, ◌==◌, if◌then◌else◌, length, ap, ◌<◌,
}
use muxly.Outcome.{Error, Result, ok, err, external}

abbrev pub Io : Type 0 → Type 0 → Type 0
Io W A = W → Result A × W

abbrev pub pure : {W A : Type 0} → A → Io W A
pure a w = (ok a, w)

abbrev pub fail : {W A : Type 0} → Error → Io W A
fail e w = (err e, w)

abbrev pub follow : {W A B : Type 0} → Result A × W → (A → Io W B) → Result B × W
follow (ok a, w) f = f a w
follow (err e, w) f = (err e, w)

infixl 5 ◌>>=◌ ◌>>◌
abbrev pub ◌>>=◌ : {W A B : Type 0} → Io W A → (A → Io W B) → Io W B
◌>>=◌ m f w = follow (m w) f

abbrev pub ◌>>◌ : {W B : Type 0} → Io W (Unit {0}) → Io W B → Io W B
◌>>◌ m k w = follow (m w) (λ _. k)

-- The steps of a chain, one by one.
pub follow_ok :
    {W A B : Type 0} {r : Result A × W} {a : A} {w : W} (f : A → Io W B)
    → r ≡ (ok a, w)
    → follow r f ≡ f a w
follow_ok f e = ap (λ p. follow p f) e

pub follow-eq-ok :
    {W A B : Type 0} (r : Result A × W) (f : A → Io W B) {b : B}
    → (follow r f).0 ≡ ok b
    → (a : A) × (r.0 ≡ ok a) × ((f a r.1).0 ≡ ok b) × ((follow r f).1 ≡ (f a r.1).1)
follow-eq-ok (ok a, w) f h = (a, refl, h, refl)
follow-eq-ok (err e, w) f h = cc

-- `match operation.await { Ok(..) => .., Err(..) => .. }`
abbrev pub attempt : {W A : Type 0} → Io W A → Io W (Result A)
attempt m w = (ok (m w).0, (m w).1)

-- A pure result in the middle of a chain, `result?`.
abbrev pub lift : {W A : Type 0} → Result A → Io W A
lift r w = (r, w)

pub record Host : Type 1 where
  pub World : Type 0
  pub Handle : Type 0
  -- `reader.take(limit).read_until(delimiter, ..)`
  pub read_until : Handle → (limit delimiter : ℕ) → Io World Bytes
  -- `reader.read_exact(..)` into a buffer of this length
  pub read_exact : Handle → ℕ → Io World Bytes
  pub write_all : Handle → Bytes → Io World (Unit {0})
  pub flush : Handle → Io World (Unit {0})
  -- `UnixStream::connect(path)`, behind a `BufStream`
  pub connect_unix : Text → Io World Handle

-- The bytes up to the first delimiter, with it, and at most `limit` of them; and the bytes behind.
abbrev pub upto : ℕ → ℕ → Bytes → Bytes
upto zero d s = []
upto (suc n) d [] = []
upto (suc n) d (c ∷ s) = c ∷ (if c == d then [] else upto n d s)

abbrev pub beyond : ℕ → ℕ → Bytes → Bytes
beyond zero d s = s
beyond (suc n) d [] = []
beyond (suc n) d (c ∷ s) = if c == d then s else beyond n d s

-- The documented behaviour of tokio's readers on a stream that ends without an I/O error.
-- `Delivers w k s`: in the world `w` the bytes still to be read from `k` are `s`, then it ends.
pub record Readable (host : Host) : Type 1 where
  pub Delivers : host.World → host.Handle → Bytes → Type 0
  pub read_until_law :
      (w : host.World) (k : host.Handle) (s : Bytes) (limit d : ℕ)
      → Delivers w k s
      → (w' : host.World) × (host.read_until k limit d w ≡ (ok (upto limit d s), w'))
        × Delivers w' k (beyond limit d s)
  pub read_exact_law :
      (w : host.World) (k : host.Handle) (body s : Bytes)
      → Delivers w k (body ++ s)
      → (w' : host.World) × (host.read_exact k (length body) w ≡ (ok body, w')) × Delivers w' k s
  -- too few bytes: an error of kind `UnexpectedEof`
  pub read_exact_short :
      (w : host.World) (k : host.Handle) (s : Bytes) (n : ℕ)
      → Delivers w k s
      → length s < n
      → (code : ℕ) × ((host.read_exact k n w).0 ≡ err (external code))

-- `written w k` are the bytes that have been written into `k`, in order.
pub record Writable (host : Host) : Type 1 where
  pub written : host.World → host.Handle → Bytes
  pub write_all_law :
      (w : host.World) (k : host.Handle) (b : Bytes)
      → (host.write_all k b w).0 ≡ ok tt
      → written (host.write_all k b w).1 k ≡ written w k ++ b
  pub flush_law :
      (w : host.World) (k : host.Handle)
      → (host.flush k w).0 ≡ ok tt
      → written (host.flush k w).1 k ≡ written w k
