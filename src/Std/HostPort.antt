-- ===== src/Std/HostPort.antt =====
-- net.SplitHostPort and net.JoinHostPort.
use wireproxy_homerun.Std.Decimal.{show_nat, show_nat-has_byte}
use wireproxy_homerun.Prelude.{
  ℕ, ◌≡◌, false, [], ◌∷◌, ◌++◌, none, some, ◌==◌, if◌then◌else◌, any-append, true, arith,
  Bool-cases, inl, inr, ◌∙◌,
}
use wireproxy_homerun.Std.Results.{Result, ok, err, new_error}
use wireproxy_homerun.Std.Strings.{
  Text, codes, has_byte, cut, cut_last, cut_last-append, cut-append,
}

abbrev colon : ℕ
colon = b':'

abbrev open_bracket : ℕ
open_bracket = b'['

abbrev close_bracket : ℕ
close_bracket = b']'

addr_error : Text → Result (Text × Text)
addr_error why = err (new_error why)

missing_port : Result (Text × Text)
unfolding addr_error
missing_port = addr_error (codes "missing port in address")

too_many_colons : Result (Text × Text)
unfolding addr_error
too_many_colons = addr_error (codes "too many colons in address")

-- the closing tests for a stray bracket, in the parts where none may stand
finish : Text → Text → Text → Text → Result (Text × Text)
unfolding addr_error
finish no_open no_close host port =
    if has_byte open_bracket no_open
    then addr_error (codes "unexpected '[' in address")
    else if has_byte close_bracket no_close
    then addr_error (codes "unexpected ']' in address")
    else ok (host, port)

-- what follows the first ']' of a bracketed host
after_bracket : Text → Text → Result (Text × Text)
unfolding missing_port too_many_colons finish
after_bracket host [] = missing_port
after_bracket host (c ∷ port) =
    if c == colon
    then (if has_byte colon port
        then too_many_colons
        else finish (host ++ close_bracket ∷ c ∷ port) (c ∷ port) host port)
    else missing_port

bracketed : Text → Result (Text × Text)
unfolding after_bracket
bracketed rest = elim (cut close_bracket rest) [
  | none ↦ addr_error (codes "missing ']' in address")
  | some (host, after) ↦ after_bracket host after
]

plain : Text → Text → Text → Result (Text × Text)
unfolding too_many_colons finish
plain s host port = if has_byte colon host then too_many_colons else finish s s host port

unbracketed : Text → Result (Text × Text)
unfolding plain missing_port
unbracketed s = elim (cut_last colon s) [
  | none ↦ missing_port
  | some (host, port) ↦ plain s host port
]

unfoldable pub split_host_port : Text → Result (Text × Text)
unfolding unbracketed bracketed missing_port
split_host_port [] = missing_port
split_host_port (c ∷ rest) =
    if has_byte colon (c ∷ rest)
    then (if c == open_bracket then bracketed rest else unbracketed (c ∷ rest))
    else missing_port

unfoldable pub join_host_port : Text → Text → Text
join_host_port host port =
    if has_byte colon host
    then open_bracket ∷ host ++ close_bracket ∷ colon ∷ port
    else host ++ colon ∷ port

-- No byte of a text is one of the three that delimit hosts and ports; a host may hold colons.
abbrev pub IsHost : Text → Type 0
IsHost s = (has_byte open_bracket s ≡ false) × (has_byte close_bracket s ≡ false)

abbrev pub IsPort : Text → Type 0
IsPort s = IsHost s × (has_byte colon s ≡ false)

-- What the host and port texts of a joined address may hold; a host may hold colons.
finish_lem :
    (s t host port : Text)
    → has_byte open_bracket s ≡ false
    → has_byte close_bracket t ≡ false
    → finish s t host port ≡ ok (host, port)
unfolding finish
finish_lem s t host port o c = rw (o, c)

-- A host without colons is what stands before the last colon.
unbracketed-join :
    (host port : Text)
    → has_byte colon host ≡ false
    → IsHost host
    → IsPort port
    → unbracketed (host ++ colon ∷ port) ≡ ok (host, port)
unfolding unbracketed
unbracketed-join host port flat h p =
    rw (cut_last-append colon host port p.1, unbracketed)
      (rw (flat, plain)
        (finish_lem (host ++ colon ∷ port) (host ++ colon ∷ port) host port
          (ground (arith, any-append (λ c. c == open_bracket) host (colon ∷ port)))
          (ground (arith, any-append (λ c. c == close_bracket) host (colon ∷ port)))))

-- A bracketed host is what stands before the first closing bracket.
bracketed-join :
    (host port : Text)
    → IsHost host
    → IsPort port
    → bracketed (host ++ close_bracket ∷ colon ∷ port) ≡ ok (host, port)
unfolding bracketed
bracketed-join host port h p =
    rw (cut-append close_bracket host (colon ∷ port) h.1, bracketed)
      (rw (p.1, after_bracket)
        (finish_lem (host ++ close_bracket ∷ colon ∷ port) (colon ∷ port) host port
          (ground (arith, any-append (λ c. c == open_bracket) host (close_bracket ∷ colon ∷ port)))
          (ground arith)))

has_colon : (host port : Text) → has_byte colon (host ++ colon ∷ port) ≡ true
has_colon host port = ground (arith, any-append (λ c. c == colon) host (colon ∷ port))

split_unbracketed :
    (s : Text)
    → has_byte colon s ≡ true
    → has_byte open_bracket s ≡ false
    → split_host_port s ≡ unbracketed s
unfolding split_host_port
split_unbracketed [] c o = cc
split_unbracketed (x ∷ s) c o = ground arith

split_bracketed :
    (s : Text) → has_byte colon s ≡ true → split_host_port (open_bracket ∷ s) ≡ bracketed s
unfolding split_host_port
split_bracketed s c = rw c

no_open :
    (host port : Text)
    → IsHost host
    → IsPort port
    → has_byte open_bracket (host ++ colon ∷ port) ≡ false
no_open host port h p = ground (arith, any-append (λ c. c == open_bracket) host (colon ∷ port))

deep_colon : (host port : Text) → has_byte colon (host ++ close_bracket ∷ colon ∷ port) ≡ true
deep_colon host port =
    ground (arith, any-append (λ c. c == colon) host (close_bracket ∷ colon ∷ port))

-- Splitting a joined address gives back its host and its port.
pub split-join :
    (host port : Text)
    → IsHost host
    → IsPort port
    → split_host_port (join_host_port host port) ≡ ok (host, port)
unfolding join_host_port
split-join host port h p = elim (Bool-cases (has_byte colon host)) [
  | inl deep ↦
      rw (deep, join_host_port)
        (split_bracketed _ (deep_colon host port) ∙ bracketed-join host port h p)
  | inr flat ↦
      rw (flat, join_host_port)
        (split_unbracketed _ (has_colon host port) (no_open host port h p)
          ∙ unbracketed-join host port flat h p)
]

pub show_nat-IsPort : (n : ℕ) → IsPort (show_nat n)
show_nat-IsPort n = (
  (
    show_nat-has_byte open_bracket n (inr (omega arith)),
    show_nat-has_byte close_bracket n (inr (omega arith)),
  ),
  show_nat-has_byte colon n (inr (omega arith)),
)
