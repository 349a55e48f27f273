-- ===== src/Std/Streams.antt =====
-- The reading side of a connection: io.Reader, io.TeeReader, bytes.Buffer and io.MultiReader.
pub mod Laws
use wireproxy_homerun.Prelude.{ℕ, zero, suc, List, [], ◌∷◌, ◌++◌}
use wireproxy_homerun.Std.Results.{Error, new_error, Result, ok, err}
use wireproxy_homerun.Std.Strings.{Text, codes}

-- The first bytes, at most so many, and the others.
unfoldable pub split_at : ℕ → Text → Text × Text
split_at zero s = ([], s)
split_at (suc n) [] = ([], [])
split_at (suc n) (c ∷ s) = let (a, b) = split_at n s in (c ∷ a, b)

-- What arrives: data, or an error such as that of a deadline, in their order; then the end.
abbrev pub Stream : Type 0
Stream = List (Result Text)

unfoldable pub eof : Error
eof = new_error (codes "EOF")

-- The part of a chunk that does not fit stays.
keep_rest : Text → Stream → Stream
keep_rest [] rest = rest
keep_rest (c ∷ s) rest = ok (c ∷ s) ∷ rest

-- conn.Read into so many bytes
unfoldable pub read_conn : ℕ → Stream → Result Text × Stream
unfolding eof split_at keep_rest
read_conn n [] = (err eof, [])
read_conn n (err e ∷ rest) = (err e, rest)
read_conn n (ok chunk ∷ rest) = let (a, b) = split_at n chunk in (ok a, keep_rest b rest)

abbrev pub bytes_of : Result Text → Text
bytes_of (ok s) = s
bytes_of (err e) = []

-- TeeReader: what is read also goes to the buffer.
unfoldable pub tee_read : ℕ → Text × Stream → Result Text × (Text × Stream)
unfolding read_conn
tee_read n (buffer, conn) = let (r, rest) = read_conn n conn in (r, (buffer ++ bytes_of r, rest))

-- MultiReader of the buffer and the connection
unfoldable pub multi_read : ℕ → Text × Stream → Result Text × (Text × Stream)
unfolding read_conn split_at
multi_read n ([], conn) = let (r, rest) = read_conn n conn in (r, ([], rest))
multi_read n (c ∷ buffer, conn) = let (a, b) = split_at n (c ∷ buffer) in (ok a, (b, conn))

-- The bytes that are still to come.
unfoldable pub contents : Stream → Text
contents [] = []
contents (r ∷ rest) = bytes_of r ++ contents rest
