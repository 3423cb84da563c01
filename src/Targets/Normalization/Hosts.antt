-- ===== src/Targets/Normalization/Hosts.antt =====
-- What an accepted host and an accepted target look like.
use sentinel_gpt.Common.{
  ℕ, ◌≡◌, ◌≢◌, refl, Bool, true, false, not, ◌&&◌, ◌||◌, [], ◌∷◌, arith, Option, none, some, any_of,
  contains, ◌==◌,
}
use sentinel_gpt.Common.Text.{Text, codes, text_eq, Unicode, ends_with, rstrip}
use sentinel_gpt.Errors.{ok, raise_if, ◌>>=◌}
use sentinel_gpt.Network.IpAddress.{IpAddress}
use sentinel_gpt.Targets.Normalization.{
  strip_trailing_dot, is_disallowed_ip, contains_non_ascii_numeric, looks_like_numeric_host,
  is_canonical_dotted_quad, as_ip_literal, is_disallowed_literal, check_host, validate_host,
  metadata_name_blocklist, private_name_suffixes,
}

rstrip_idem : (p : ℕ → Bool) (s : Text) → rstrip p (rstrip p s) ≡ rstrip p s
unfolding rstrip
rstrip_idem p [] = refl
rstrip_idem p (c ∷ s) = ground (arith, rstrip_idem p s)

strip_trailing_dot_idem :
    (s : Text) → strip_trailing_dot (strip_trailing_dot s) ≡ strip_trailing_dot s
unfolding strip_trailing_dot
strip_trailing_dot_idem s = rstrip_idem _ s

module _ (u : Unicode) (parse_ip : Text → Option IpAddress) where
  -- What the gate has established of a host that it accepts.
  pub record IsAccepted (host : Text) : Type 0 where
    pub nonempty : host ≢ []
    pub no_trailing_dot : strip_trailing_dot host ≡ host
    pub ascii_digits_only : contains_non_ascii_numeric u host ≡ false
    pub not_local : (host == codes "localhost" || ends_with host (codes ".localhost")) ≡ false
    pub not_internal :
        (contains metadata_name_blocklist host || any_of (ends_with host) private_name_suffixes)
        ≡ false
    pub canonical_if_numeric :
        looks_like_numeric_host host ≡ true → is_canonical_dotted_quad host ≡ true
    pub literal_allowed :
        (ip : IpAddress) → as_ip_literal u parse_ip host ≡ some ip → is_disallowed_ip ip ≡ false

  host-eq :
      (given host : Text)
      → validate_host u parse_ip given ≡ ok host
      → host ≡ strip_trailing_dot given
  unfolding validate_host raise_if ◌>>=◌
  host-eq given host h = ground arith

  checks :
      (given : Text) {host : Text}
      → validate_host u parse_ip given ≡ ok host
      → let x = strip_trailing_dot given in
        (x ≢ [])
        × (contains_non_ascii_numeric u x ≡ false)
        × ((x == codes "localhost" || ends_with x (codes ".localhost")) ≡ false)
        × ((contains metadata_name_blocklist x || any_of (ends_with x) private_name_suffixes)
            ≡ false)
        × (looks_like_numeric_host x ≡ true → is_canonical_dotted_quad x ≡ true)
        × (is_disallowed_literal u parse_ip (as_ip_literal u parse_ip x) ≡ false)
  unfolding validate_host raise_if ◌>>=◌
  checks given h = ground arith

  literal :
      (o : Option IpAddress)
      → is_disallowed_literal u parse_ip o ≡ false
      → (ip : IpAddress) → o ≡ some ip
      → is_disallowed_ip ip ≡ false
  literal o h ip e = ground arith

  literal_ok :
      (o : Option IpAddress)
      → ((ip : IpAddress) → o ≡ some ip → is_disallowed_ip ip ≡ false)
      → is_disallowed_literal u parse_ip o ≡ false
  literal_ok none h = refl
  literal_ok (some ip) h = h ip refl

  -- A host that `validate_host` accepts is the given one less one trailing dot, and meets every
  -- condition of `IsAccepted`.
  pub validate_host-IsAccepted :
      (given host : Text)
      → validate_host u parse_ip given ≡ ok host
      → (host ≡ strip_trailing_dot given) × IsAccepted host
  validate_host-IsAccepted given host h =
      let c = checks given h in
      (
        host-eq given host h,
        rw (host-eq given host h) (record {
          nonempty = c.0;
          no_trailing_dot = strip_trailing_dot_idem given;
          ascii_digits_only = c.1;
          not_local = c.2;
          not_internal = c.3;
          canonical_if_numeric = c.4;
          literal_allowed = literal _ c.5;
        }),
      )

  IsAccepted-check_host : (host : Text) → IsAccepted host → check_host u parse_ip host ≡ ok host
  unfolding check_host raise_if ◌>>=◌
  IsAccepted-check_host host a =
      let nonempty : (host == []) ≡ false = ground (arith, a.nonempty) in
      let numeric : (looks_like_numeric_host host && not (is_canonical_dotted_quad host)) ≡ false =
        ground (arith, a.canonical_if_numeric) in
      let literal : is_disallowed_literal u parse_ip (as_ip_literal u parse_ip host) ≡ false =
        literal_ok (as_ip_literal u parse_ip host) a.literal_allowed in
      rw (nonempty, a.ascii_digits_only, a.not_local, a.not_internal, numeric, literal)

  IsAccepted-validate_host :
      (host : Text) → IsAccepted host → validate_host u parse_ip host ≡ ok host
  unfolding validate_host
  IsAccepted-validate_host host a = rw a.no_trailing_dot (IsAccepted-check_host host a)

  -- Normalizing an accepted host again accepts it and changes nothing.
  pub validate_host_idem :
      (given host : Text)
      → validate_host u parse_ip given ≡ ok host
      → validate_host u parse_ip host ≡ ok host
  validate_host_idem given host h =
      IsAccepted-validate_host host (validate_host-IsAccepted given host h).1
