-- ===== src/Std/Streams/Laws.antt =====
-- The bytes that a reader gives and those that it leaves.
use wireproxy_homerun.Std.Streams.{
  split_at, Stream, read_conn, bytes_of, tee_read, multi_read, contents, keep_rest,
}
use wireproxy_homerun.Prelude.{
  ℕ, zero, suc, ◌≡◌, refl, sym, ap, ◌∙◌, [], ◌∷◌, ◌++◌, append_assoc, length, ◌≤◌, arith,
}
use wireproxy_homerun.Std.Results.{ok, err}
use wireproxy_homerun.Std.Strings.{Text}

split_at-append : (n : ℕ) (s : Text) → (split_at n s).0 ++ (split_at n s).1 ≡ s
unfolding split_at
split_at-append zero s = refl
split_at-append (suc n) [] = refl
split_at-append (suc n) (c ∷ s) = ap (λ x. c ∷ x) (split_at-append n s)

split_at-whole : (n : ℕ) (s : Text) → length s ≤ n → split_at n s ≡ (s, [])
unfolding split_at
split_at-whole zero [] h = refl
split_at-whole zero (c ∷ s) h = absurd (omega arith)
split_at-whole (suc n) [] h = refl
split_at-whole (suc n) (c ∷ s) h =
    ap (λ (x : Text × Text). (c ∷ x.0, x.1)) (split_at-whole n s (omega arith))

keep_rest-contents : (s : Text) (rest : Stream) → contents (keep_rest s rest) ≡ s ++ contents rest
unfolding keep_rest contents
keep_rest-contents [] rest = refl
keep_rest-contents (c ∷ s) rest = refl

pub read_conn-contents :
    (n : ℕ) (conn : Stream)
    → bytes_of (read_conn n conn).0 ++ contents (read_conn n conn).1 ≡ contents conn
unfolding read_conn contents
read_conn-contents n [] = refl
read_conn-contents n (err e ∷ rest) = refl
read_conn-contents n (ok chunk ∷ rest) =
    ap (λ x. (split_at n chunk).0 ++ x) (keep_rest-contents (split_at n chunk).1 rest)
    ∙ sym (append_assoc (split_at n chunk).0 (split_at n chunk).1 (contents rest))
    ∙ ap (λ x. x ++ contents rest) (split_at-append n chunk)

-- What a MultiReader of a buffer and a connection has still to give.
abbrev pub remaining : Text × Stream → Text
remaining (buffer, conn) = buffer ++ contents conn

pub tee_read-remaining : (n : ℕ) (p : Text × Stream) → remaining (tee_read n p).1 ≡ remaining p
unfolding tee_read
tee_read-remaining n (buffer, conn) =
    append_assoc buffer (bytes_of (read_conn n conn).0) _
    ∙ ap (λ x. buffer ++ x) (read_conn-contents n conn)

pub multi_read-remaining :
    (n : ℕ) (p : Text × Stream)
    → bytes_of (multi_read n p).0 ++ remaining (multi_read n p).1 ≡ remaining p
unfolding multi_read
multi_read-remaining n ([], conn) = read_conn-contents n conn
multi_read-remaining n (c ∷ buffer, conn) =
    sym (append_assoc (split_at n (c ∷ buffer)).0 (split_at n (c ∷ buffer)).1 _)
    ∙ ap (λ x. x ++ contents conn) (split_at-append n (c ∷ buffer))

-- A chunk that fits is read whole.
pub read_conn-whole :
    (n : ℕ) (chunk : Text) (rest : Stream)
    → length chunk ≤ n
    → read_conn n (ok chunk ∷ rest) ≡ (ok chunk, rest)
unfolding read_conn keep_rest
read_conn-whole n chunk rest h = rw (split_at-whole n chunk h) refl
