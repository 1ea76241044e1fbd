-- ===== src/Sip/Digest/Printed.antt =====
-- The parameters that `build_digest_auth_header` of rfcvoip/SIPAuth.py prints, and the dictionaries that
-- have them.
use rfcvoip.Prelude.{ℕ, ◌≡◌, refl, Option, none, some, List, [], ◌∷◌}
use rfcvoip.Text.{characters}
use rfcvoip.Sip.Dict.{Dict, get, put}
use rfcvoip.Sip.Digest.Algorithms.{Qop}
use rfcvoip.Sip.Digest.Fields.{Field}
use rfcvoip.Sip.Digest.RoundTrip.{entries}
use rfcvoip.Sip.Digest.Response.{or_no_text}
use rfcvoip.Sip.Digest.Authorization.{put_some, qop_params, put_cnonce, first_field, other_fields}
use rfcvoip.Sip.Digest.Verification.{text_of_qop}

-- The parameters that a header is printed from.
pub record Printed : Type 0 where
  pub username : List ℕ
  pub realm : List ℕ
  pub nonce : List ℕ
  pub uri : List ℕ
  pub algorithm : List ℕ
  pub qop : Option Qop
  pub cnonce : List ℕ
  pub nc : List ℕ
  pub response : List ℕ
  pub opaque : Option (List ℕ)

abbrev pub asked_params : Printed → Dict
asked_params p = qop_params p.qop p.nc (
    put_cnonce p.cnonce (
      (characters "username", p.username)
      ∷ (characters "realm", p.realm)
      ∷ (characters "nonce", p.nonce)
      ∷ (characters "uri", p.uri)
      ∷ (characters "algorithm", p.algorithm)
      ∷ []))

abbrev pub printed_params : Printed → Dict
printed_params p =
    put_some (characters "opaque") p.opaque
      (put (characters "response") p.response (asked_params p))

abbrev pub printed_fields : Printed → List Field
printed_fields p = first_field (printed_params p) ∷ other_fields (printed_params p)

abbrev pub nc_of : Option Qop → List ℕ → Option (List ℕ)
nc_of none nc = none
nc_of (some qop) nc = some nc

-- That the dictionary `d` has the parameters.
pub record Asks (p : Printed) (d : Dict) : Type 0 where
  pub algorithm : get (characters "algorithm") d ≡ some p.algorithm
  pub realm : get (characters "realm") d ≡ some p.realm
  pub nonce : get (characters "nonce") d ≡ some p.nonce
  pub uri : get (characters "uri") d ≡ some p.uri
  pub username : get (characters "username") d ≡ some p.username
  pub qop : get (characters "qop") d ≡ text_of_qop p.qop
  pub cnonce : or_no_text (get (characters "cnonce") d) ≡ p.cnonce
  pub nc : get (characters "nc") d ≡ nc_of p.qop p.nc

-- That it has the response too.
pub record Reads (p : Printed) (d : Dict) : Type 0 where
  pub asks : Asks p d
  pub response : get (characters "response") d ≡ some p.response

-- The client computes the response from a dictionary that has the parameters.
Asks-first :
    (p : Printed) (q : Option Qop) (cnonce : List ℕ)
    → Asks
        (record p { qop = q; cnonce = cnonce })
        (asked_params (record p { qop = q; cnonce = cnonce }))
unfolding get put
Asks-first p none [] = record {
  algorithm = refl;
  realm = refl;
  nonce = refl;
  uri = refl;
  username = refl;
  qop = refl;
  cnonce = refl;
  nc = refl;
}
Asks-first p none (c ∷ cs) = record {
  algorithm = refl;
  realm = refl;
  nonce = refl;
  uri = refl;
  username = refl;
  qop = refl;
  cnonce = refl;
  nc = refl;
}
Asks-first p (some q) [] = record {
  algorithm = refl;
  realm = refl;
  nonce = refl;
  uri = refl;
  username = refl;
  qop = refl;
  cnonce = refl;
  nc = refl;
}
Asks-first p (some q) (c ∷ cs) = record {
  algorithm = refl;
  realm = refl;
  nonce = refl;
  uri = refl;
  username = refl;
  qop = refl;
  cnonce = refl;
  nc = refl;
}

pub asked_params-Asks : (p : Printed) → Asks p (asked_params p)
asked_params-Asks p = Asks-first p p.qop p.cnonce

pub Reads-back :
    (p : Printed) (q : Option Qop) (cnonce : List ℕ) (o : Option (List ℕ))
    → Reads
        (record p { qop = q; cnonce = cnonce; opaque = o })
        (entries (printed_fields (record p { qop = q; cnonce = cnonce; opaque = o })) [])
unfolding get put
Reads-back p none [] none = record {
  asks = record {
    algorithm = refl;
    realm = refl;
    nonce = refl;
    uri = refl;
    username = refl;
    qop = refl;
    cnonce = refl;
    nc = refl;
  };
  response = refl;
}
Reads-back p none [] (some o) = record {
  asks = record {
    algorithm = refl;
    realm = refl;
    nonce = refl;
    uri = refl;
    username = refl;
    qop = refl;
    cnonce = refl;
    nc = refl;
  };
  response = refl;
}
Reads-back p none (c ∷ cs) none = record {
  asks = record {
    algorithm = refl;
    realm = refl;
    nonce = refl;
    uri = refl;
    username = refl;
    qop = refl;
    cnonce = refl;
    nc = refl;
  };
  response = refl;
}
Reads-back p none (c ∷ cs) (some o) = record {
  asks = record {
    algorithm = refl;
    realm = refl;
    nonce = refl;
    uri = refl;
    username = refl;
    qop = refl;
    cnonce = refl;
    nc = refl;
  };
  response = refl;
}
Reads-back p (some q) [] none = record {
  asks = record {
    algorithm = refl;
    realm = refl;
    nonce = refl;
    uri = refl;
    username = refl;
    qop = refl;
    cnonce = refl;
    nc = refl;
  };
  response = refl;
}
Reads-back p (some q) [] (some o) = record {
  asks = record {
    algorithm = refl;
    realm = refl;
    nonce = refl;
    uri = refl;
    username = refl;
    qop = refl;
    cnonce = refl;
    nc = refl;
  };
  response = refl;
}
Reads-back p (some q) (c ∷ cs) none = record {
  asks = record {
    algorithm = refl;
    realm = refl;
    nonce = refl;
    uri = refl;
    username = refl;
    qop = refl;
    cnonce = refl;
    nc = refl;
  };
  response = refl;
}
Reads-back p (some q) (c ∷ cs) (some o) = record {
  asks = record {
    algorithm = refl;
    realm = refl;
    nonce = refl;
    uri = refl;
    username = refl;
    qop = refl;
    cnonce = refl;
    nc = refl;
  };
  response = refl;
}
