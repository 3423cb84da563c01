-- ===== src/Targets/Normalization/Accepted.antt =====
-- What `normalize_target` returns.
use sentinel_gpt.Common.{
  ◌≤◌, ◌≡◌, true, [], ◌∷◌, ◌++◌, arith, Option, length, contains, ◌==◌, ◌⊎◌, inl, inr, Bool-cases,
}
use sentinel_gpt.Common.Text.{Text, codes, text_eq, Unicode, starts_with, starts_with_self}
use sentinel_gpt.Errors.{ok, Returns, returned, Returns-elim, Returns-bind, Returns-raise_if}
use sentinel_gpt.Network.IpAddress.{IpAddress}
use sentinel_gpt.Targets.Urls.{UrlLib, urlunsplit}
use sentinel_gpt.Targets.Normalization.{
  NormalizedTarget, normalize_target, max_hostname_length, max_normalized_url_length,
  allowed_schemes,
}
use sentinel_gpt.Targets.Normalization.Hosts.{IsAccepted, validate_host-IsAccepted}

starts_with-append : (p s t : Text) → starts_with (p ++ (s ++ t)) (p ++ s) ≡ true
unfolding starts_with
starts_with-append [] s t = starts_with_self s t
starts_with-append (c ∷ p) s t = ground (arith, starts_with-append p s t)

starts_with-append_left : (s p t : Text) → starts_with s p ≡ true → starts_with (s ++ t) p ≡ true
unfolding starts_with
starts_with-append_left s [] t h = ground arith
starts_with-append_left [] (c ∷ p) t h = cc
starts_with-append_left (d ∷ s) (c ∷ p) t h = ground (arith, starts_with-append_left s p t)

-- A URL put together from a scheme begins with that scheme.
urlunsplit_scheme :
    (scheme netloc path query : Text)
    → starts_with (urlunsplit scheme netloc path query) (scheme ++ codes "://") ≡ true
unfolding urlunsplit
urlunsplit_scheme scheme netloc path query =
    let begins : (rest : Text)
        → starts_with (scheme ++ (codes "://" ++ rest)) (scheme ++ codes "://") ≡ true =
      starts_with-append scheme (codes "://") in
    elim (Bool-cases (query == [])) [
      | inl e ↦ rw e (begins _)
      | inr e ↦ rw e (starts_with-append_left _ _ _ (begins _))
    ]

allowed-cases :
    (s : Text) → contains allowed_schemes s ≡ true → (s ≡ codes "http") ⊎ (s ≡ codes "https")
allowed-cases s h = ground arith

module _ (u : Unicode) (parse_ip : Text → Option IpAddress) (urls : UrlLib) where
  pub record IsNormalized (n : NormalizedTarget) : Type 0 where
    pub host_accepted : IsAccepted u parse_ip n.hostname
    pub host_length : length n.hostname ≤ max_hostname_length
    pub url_length : length n.normalized_url ≤ max_normalized_url_length
    pub web_scheme :
        (starts_with n.normalized_url (codes "http://") ≡ true)
        ⊎ (starts_with n.normalized_url (codes "https://") ≡ true)

  scheme_begins :
      (scheme netloc path query : Text)
      → (scheme ≡ codes "http") ⊎ (scheme ≡ codes "https")
      → (starts_with (urlunsplit scheme netloc path query) (codes "http://") ≡ true)
        ⊎ (starts_with (urlunsplit scheme netloc path query) (codes "https://") ≡ true)
  scheme_begins scheme netloc path query (inl e) =
      inl (rw e (urlunsplit_scheme (codes "http") netloc path query))
  scheme_begins scheme netloc path query (inr e) =
      inr (rw e (urlunsplit_scheme (codes "https") netloc path query))

  Returns-IsNormalized :
      (hostname url : Text) → Returns IsNormalized (normalize_target u parse_ip urls hostname url)
  unfolding normalize_target
  Returns-IsNormalized hostname url = Returns-raise_if _ _ _ λ _. Returns-raise_if _ _ _ λ _.
      Returns-bind _ _ λ parts _. Returns-raise_if _ _ _ λ known_scheme. Returns-raise_if _ _ _ λ _.
        Returns-bind _ _ λ port _. Returns-bind _ _ λ host valid.
          Returns-raise_if _ _ _ λ short_host. Returns-raise_if _ _ _ λ _.
            Returns-raise_if _ _ _ λ short_url. returned (record {
              host_accepted = (validate_host-IsAccepted u parse_ip _ host valid).1;
              host_length = ground arith;
              url_length = ground arith;
              web_scheme = scheme_begins _ _ _ _ (allowed-cases _ (ground arith));
            })

  -- A target that the gate returns has an accepted host of at most 255 characters and a URL of at
  -- most 500 that begins with `http://` or `https://`.
  pub normalize_target-IsNormalized :
      (hostname url : Text) (n : NormalizedTarget)
      → normalize_target u parse_ip urls hostname url ≡ ok n
      → IsNormalized n
  normalize_target-IsNormalized hostname url n h =
      Returns-elim (Returns-IsNormalized hostname url) n h
