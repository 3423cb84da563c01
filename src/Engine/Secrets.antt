-- ===== src/Engine/Secrets.antt =====
-- The value of a cookie does not reach the report.
use sentinel_gpt.Common.{
  ◌≡◌, ◌≢◌, refl, sym, ap, ◌∙◌, Bool, true, false, not, ◌==◌, nat_eq, Option, some, List, [], ◌∷◌,
  ◌++◌, map, All, arith, if◌then◌else◌, ◌&&◌,
}
use sentinel_gpt.Common.Text.{Text, codes, text_eq}
use sentinel_gpt.Network.Binding.{ScanNetworkContext}
use sentinel_gpt.Network.Contract.{Headers, HttpResponseData}
use sentinel_gpt.Sandbox.Services.{OriginSpec}
use sentinel_gpt.Engine.Findings.{Tables, both}
use sentinel_gpt.Engine.Headers.{
  is_set, server_header, SecurityHeader, header_value, assess_each, assess_plain, assess_headers,
  assess_header, assess_server_each, assess_server_info, assess_transport, security_headers,
  interesting,
}
use sentinel_gpt.Engine.Cookies.{read_cookie, set_cookies, assess_read, assess_cookies}
use sentinel_gpt.Engine.Analysis.{assess}
use sentinel_gpt.Engine.Cuts.{Free, cookie_text, read_cookie-kept}

-- Two lists of headers that agree but for the values of cookies
pub data SameButValues (k : Tables) : Headers → Headers → Type 0 where
  no_header : SameButValues k [] []
  same_header :
      {headers headers' : Headers} (key value : Text)
      → SameButValues k headers headers'
      → SameButValues k ((key, value) ∷ headers) ((key, value) ∷ headers')
  other_value :
      {headers headers' : Headers} (key name value value' : Text) (attributes : Option Text)
      → k.unicode.lower key ≡ codes "set-cookie"
      → Free b'=' name
      → Free b';' name
      → Free b';' value
      → Free b';' value'
      → SameButValues k headers headers'
      → SameButValues k
          ((key, cookie_text name value attributes) ∷ headers)
          ((key, cookie_text name value' attributes) ∷ headers')

not_cookie : (s : Text) → (s == codes "set-cookie") ≡ false → s ≢ codes "set-cookie"
not_cookie s h e = ground arith

hsts_differs : codes "strict-transport-security" ≢ codes "set-cookie"
unfolding text_eq
hsts_differs = not_cookie _ refl

names_differ : All (λ h. h.lowered ≢ codes "set-cookie") security_headers
unfolding text_eq
names_differ = (
  not_cookie _ refl,
  (
    not_cookie _ refl,
    (not_cookie _ refl, (not_cookie _ refl, (not_cookie _ refl, (not_cookie _ refl, tt)))),
  ),
)

keys_differ : All (λ key. key ≢ codes "set-cookie") interesting
unfolding text_eq
keys_differ = (not_cookie _ refl, (not_cookie _ refl, (not_cookie _ refl, (not_cookie _ refl, tt))))

module _ (k : Tables) (mark : k.unicode.is_space b'=' ≡ false) where
  read-if :
      (b : Bool) (value value' : Text) (xs ys : List Text)
      → read_cookie k value ≡ read_cookie k value'
      → map (read_cookie k) xs ≡ map (read_cookie k) ys
      → map (read_cookie k) (if b then value ∷ xs else xs)
        ≡ map (read_cookie k) (if b then value' ∷ ys else ys)
  read-if true value value' xs ys e same =
      ap (λ c. c ∷ map (read_cookie k) xs) e ∙ ap (λ cs. read_cookie k value' ∷ cs) same
  read-if false value value' xs ys e same = same

  cookies-same :
      (hs hs' : Headers)
      → SameButValues k hs hs'
      → map (read_cookie k) (set_cookies k hs) ≡ map (read_cookie k) (set_cookies k hs')
  unfolding set_cookies
  cookies-same hs hs' no_header = refl
  cookies-same hs hs' (same_header {headers} {headers'} key value rest) =
      read-if (k.unicode.lower key == codes "set-cookie") value value _ _ refl
        (cookies-same headers headers' rest)
  cookies-same hs hs'
        (other_value {headers} {headers'} key name value value' attributes e h f v v' rest) =
      read-if (k.unicode.lower key == codes "set-cookie") _ _ _ _
        (read_cookie-kept k mark name value attributes h f v
          ∙ sym (read_cookie-kept k mark name value' attributes h f v'))
        (cookies-same headers headers' rest)

  differs :
      (wanted key : Text)
      → key ≡ codes "set-cookie"
      → wanted ≢ codes "set-cookie"
      → (key == wanted) ≡ false
  differs wanted key e n = elim (text_eq.dec key wanted) [
    | yes p ↦ absurd (n (sym p ∙ e))
    | no q ↦ ground arith
  ]

  other-if :
      (b : Bool) (v v' : Text) (o o' : Option Text)
      → b ≡ false
      → o ≡ o'
      → (if not (is_set o) && b then some v else o) ≡ (if not (is_set o') && b then some v' else o')
  other-if b v v' o o' h e = ground arith

  -- Another header is the same in both.
  header_value-same :
      (wanted : Text) (hs hs' : Headers)
      → wanted ≢ codes "set-cookie"
      → SameButValues k hs hs'
      → header_value k wanted hs ≡ header_value k wanted hs'
  unfolding header_value
  header_value-same wanted hs hs' n no_header = refl
  header_value-same wanted hs hs' n (same_header {headers} {headers'} key value rest) =
      let same = header_value-same wanted headers headers' n rest in rw same refl
  header_value-same wanted hs hs' n
        (other_value {headers} {headers'} key name value value' attributes e h f v v' rest) =
      other-if (k.unicode.lower key == wanted) _ _ _ _ (differs wanted (k.unicode.lower key) e n)
        (header_value-same wanted headers headers' n rest)

  assess_each-same :
      (location : Text) (hs hs' : Headers) (wanted : List SecurityHeader)
      → All (λ h. h.lowered ≢ codes "set-cookie") wanted
      → SameButValues k hs hs'
      → assess_each k location hs wanted ≡ assess_each k location hs' wanted
  unfolding assess_each
  assess_each-same location hs hs' [] n same = refl
  assess_each-same location hs hs' (h ∷ wanted) n same =
      ap (λ o. both (assess_header k location h o) (assess_each k location hs wanted))
        (header_value-same h.lowered hs hs' n.0 same)
      ∙ ap (λ r. both (assess_header k location h (header_value k h.lowered hs')) r)
          (assess_each-same location hs hs' wanted n.1 same)

  assess_server_each-same :
      (hs hs' : Headers) (keys : List Text)
      → All (λ key. key ≢ codes "set-cookie") keys
      → SameButValues k hs hs'
      → assess_server_each k hs keys ≡ assess_server_each k hs' keys
  unfolding assess_server_each
  assess_server_each-same hs hs' [] n same = refl
  assess_server_each-same hs hs' (key ∷ keys) n same =
      ap (λ o. both (server_header k key o) (assess_server_each k hs keys))
        (header_value-same key hs hs' n.0 same)
      ∙ ap (λ r. both (server_header k key (header_value k key hs')) r)
          (assess_server_each-same hs hs' keys n.1 same)

  -- The report does not tell the values of cookies: of two responses that agree but for them, the
  -- engine makes the same observations and the same findings. A cookie's text is here its name, an
  -- equals sign and its value, with the attributes after a semicolon, and the equals sign is no
  -- space.
  pub assess-secret :
      (context : ScanNetworkContext) (origin : OriginSpec) (response : HttpResponseData)
      (headers : Headers)
      → SameButValues k response.headers headers
      → assess k context origin response
        ≡ assess k context origin (record response { headers = headers })
  unfolding assess assess_transport assess_headers assess_cookies assess_server_info
  assess-secret context origin response headers same =
      let location = origin.scheme ++ (codes "://" ++ (context.binding.hostname ++ origin.path)) in
      let posture = assess_transport k context.binding.hostname origin response in
      let plain = response.final_target.scheme == codes "http" in
      let hsts = codes "strict-transport-security" in
      let before = response.headers in
      let each = assess_each-same location before headers security_headers names_differ same in
      let sts = header_value-same hsts before headers hsts_differs same in
      let kept = cookies-same before headers same in
      let server = assess_server_each-same before headers interesting keys_differ same in
      ap
        (λ e. both posture (
          both (both e (assess_plain k location plain (header_value k hsts before))) (
            both (assess_read k location (map (read_cookie k) (set_cookies k before)))
              (assess_server_each k before interesting))))
        each
      ∙ (ap
            (λ o. both posture (
              both
                (both (assess_each k location headers security_headers)
                  (assess_plain k location plain o))
                (both (assess_read k location (map (read_cookie k) (set_cookies k before)))
                  (assess_server_each k before interesting))))
            sts
          ∙ (ap
                (λ cs. both posture (
                  both (assess_headers k location (record response { headers = headers }))
                    (both (assess_read k location cs) (assess_server_each k before interesting))))
                kept
              ∙ ap
                  (λ r. both posture (
                    both (assess_headers k location (record response { headers = headers })) (
                      both (assess_read k location (map (read_cookie k) (set_cookies k headers)))
                        r)))
                  server))
