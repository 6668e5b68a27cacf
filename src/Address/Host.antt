-- ===== src/Address/Host.antt =====
-- sylar/address.cc, Address::Lookup: how a host is split into a node and a service.
use sylar_from_scratch.Base.{
  ℕ, Bool, true, false, not, ◌&&◌, [], ◌∷◌, ◌++◌, Option, some, none, ◌==◌, if◌then◌else◌, maybe,
  is_some, ◌≡◌, refl, ap, ◌∙◌, eq→==,
}
use sylar_from_scratch.Base.Bytes.{Text, avoids, and-split, not-split}
use mathlib.Core.Bool.{false≢true}

-- `memchr`: what stands before the byte and what stands behind it.
pub memchr : ℕ → Text → Option (Text × Text)
memchr c [] = none
memchr c (x ∷ xs) =
    if x == c then some ([], xs) else maybe none (λ (l, r). some (x ∷ l, r)) (memchr c xs)

-- `Lookup` up to getaddrinfo: its node and its service. 91 is '[', 93 ']' and 58 ':'.
abbrev pub service_behind : Text → Option Text
service_behind [] = none
service_behind (c ∷ rest) = if c == 58 then some rest else none

-- In brackets; the node is empty if there are none, or nothing in them.
pub split_brackets : Text → Text × Option Text
unfolding memchr
split_brackets [] = ([], none)
split_brackets (c ∷ host) =
    if c == 91
    then maybe ([], none) (λ (node, rest). (node, service_behind rest)) (memchr 93 host)
    else ([], none)

-- At a colon; if there is another one behind it, `service` stays at the first.
pub split_colon : Text → Text × Option Text
split_colon host =
    maybe ([], none)
      (λ (node, rest).
        if is_some (memchr 58 rest) then ([], some (58 ∷ rest)) else (node, some rest))
      (memchr 58 host)

abbrev pub or_host : Text → Text × Option Text → Text × Option Text
or_host host ([], service) = (host, service)
or_host host (c ∷ node, service) = (c ∷ node, service)

abbrev pub or_colon : Text → Text × Option Text → Text × Option Text
or_colon host ([], service) = or_host host (split_colon host)
or_colon host (c ∷ node, service) = (c ∷ node, service)

pub split_host : Text → Text × Option Text
unfolding split_brackets split_colon
split_host host = or_colon host (split_brackets host)

-- The ways to write a host, and what each means.
pub data Written : Type 0 where
  plain : Text → Written
  with_service : Text → Text → Written
  bracketed : Text → Written
  bracketed_with_service : Text → Text → Written

unfoldable pub write_host : Written → Text
write_host (plain node) = node
write_host (with_service node service) = node ++ 58 ∷ service
write_host (bracketed node) = 91 ∷ node ++ 93 ∷ []
write_host (bracketed_with_service node service) = 91 ∷ node ++ 93 ∷ 58 ∷ service

unfoldable pub meaning : Written → Text × Option Text
meaning (plain node) = (node, none)
meaning (with_service node service) = (node, some service)
meaning (bracketed node) = (node, none)
meaning (bracketed_with_service node service) = (node, some service)

unfoldable pub starts_otherwise : ℕ → Text → Bool
starts_otherwise c [] = false
starts_otherwise c (x ∷ xs) = not (x == c)

-- A node is not empty; out of brackets it has no colon and does not start with a bracket.
unfoldable pub is_written : Written → Bool
unfolding starts_otherwise avoids
is_written (plain node) = starts_otherwise 91 node && avoids 58 node
is_written (with_service node service) =
    starts_otherwise 91 node && avoids 58 node && avoids 58 service
is_written (bracketed node) = starts_otherwise 93 node && avoids 93 node
is_written (bracketed_with_service node service) = starts_otherwise 93 node && avoids 93 node

memchr-avoids : (c : ℕ) (xs : Text) → avoids c xs ≡ true → memchr c xs ≡ none
unfolding memchr avoids
memchr-avoids c [] h = refl
memchr-avoids c (x ∷ xs) h =
    let (ne, rest) = and-split (not (x == c)) (avoids c xs) h in
    rw (not-split (x == c) ne, memchr-avoids c xs rest) refl

memchr-found : (c : ℕ) (xs ys : Text) → avoids c xs ≡ true → memchr c (xs ++ c ∷ ys) ≡ some (xs, ys)
unfolding memchr avoids
memchr-found c [] ys h = rw (eq→== c c refl) refl
memchr-found c (x ∷ xs) ys h =
    let (ne, rest) = and-split (not (x == c)) (avoids c xs) h in
    rw (not-split (x == c) ne, memchr-found c xs ys rest) refl

split_colon-none : (host : Text) → memchr 58 host ≡ none → split_colon host ≡ ([], none)
unfolding split_colon
split_colon-none host e = simp (e) refl

split_colon-one :
    (host node rest : Text)
    → memchr 58 host ≡ some (node, rest)
    → memchr 58 rest ≡ none
    → split_colon host ≡ (node, some rest)
unfolding split_colon
split_colon-one host node rest e k = simp (e, k) refl

split_colon-two :
    (host node rest left right : Text)
    → memchr 58 host ≡ some (node, rest)
    → memchr 58 rest ≡ some (left, right)
    → split_colon host ≡ ([], some (58 ∷ rest))
unfolding split_colon
split_colon-two host node rest left right e k = simp (e, k) refl

split_brackets_lem :
    (c : ℕ) (node rest : Text)
    → avoids 93 (c ∷ node) ≡ true
    → split_host (91 ∷ c ∷ node ++ 93 ∷ rest) ≡ (c ∷ node, service_behind rest)
unfolding split_host split_brackets
split_brackets_lem c node rest free = rw (memchr-found 93 (c ∷ node) rest free) refl

unbracketed :
    (c : ℕ) (host : Text)
    → starts_otherwise 91 (c ∷ host) ≡ true
    → split_host (c ∷ host) ≡ or_host (c ∷ host) (split_colon (c ∷ host))
unfolding split_host split_brackets starts_otherwise
unbracketed c host h = rw (not-split (c == 91) h) refl

-- Lookup splits a node, node:service, [node] and [node]:service into the node and the service. The
-- node is not empty; in brackets it has no closing one, and without them neither a colon nor a
-- bracket at its start, nor its service a colon.
pub split_host-write_host :
    (w : Written) → is_written w ≡ true → split_host (write_host w) ≡ meaning w
unfolding write_host meaning is_written
split_host-write_host (plain []) h = absurd (false≢true h)
split_host-write_host (plain (c ∷ node)) h =
    let (first, free) = and-split (starts_otherwise 91 (c ∷ node)) (avoids 58 (c ∷ node)) h in
    unbracketed c node first
    ∙ ap (or_host (c ∷ node)) (split_colon-none (c ∷ node) (memchr-avoids 58 (c ∷ node) free))
split_host-write_host (with_service [] service) h = absurd (false≢true h)
split_host-write_host (with_service (c ∷ node) service) h =
    let start = starts_otherwise 91 (c ∷ node) in
    let (both, last) = and-split (start && avoids 58 (c ∷ node)) (avoids 58 service) h in
    let (first, free) = and-split start (avoids 58 (c ∷ node)) both in
    let host = (c ∷ node) ++ 58 ∷ service in
    unbracketed c (node ++ 58 ∷ service) first
    ∙ ap (or_host host) (
        split_colon-one host (c ∷ node) service (memchr-found 58 (c ∷ node) service free)
          (memchr-avoids 58 service last))
split_host-write_host (bracketed []) h = absurd (false≢true h)
split_host-write_host (bracketed (c ∷ node)) h =
    let (first, free) = and-split (starts_otherwise 93 (c ∷ node)) (avoids 93 (c ∷ node)) h in
    split_brackets_lem c node [] free
split_host-write_host (bracketed_with_service [] service) h = absurd (false≢true h)
split_host-write_host (bracketed_with_service (c ∷ node) service) h =
    let (first, free) = and-split (starts_otherwise 93 (c ∷ node)) (avoids 93 (c ∷ node)) h in
    split_brackets_lem c node (58 ∷ service) free

-- A text with two colons that is in no brackets: the service is the text from the first colon on.
pub split_host-bare :
    (before behind after : Text)
    → starts_otherwise 91 before ≡ true
    → avoids 58 before ≡ true
    → avoids 58 behind ≡ true
    → (let rest = 58 ∷ (behind ++ 58 ∷ after) in
        split_host (before ++ rest) ≡ (before ++ rest, some rest))
unfolding starts_otherwise
split_host-bare [] behind after h free free' = absurd (false≢true h)
split_host-bare (c ∷ before) behind after h free free' =
    let rest = behind ++ 58 ∷ after in
    let host = (c ∷ before) ++ 58 ∷ rest in
    unbracketed c (before ++ 58 ∷ rest) h
    ∙ ap (or_host host) (
        split_colon-two host (c ∷ before) rest behind after (memchr-found 58 (c ∷ before) rest free)
          (memchr-found 58 behind after free'))
