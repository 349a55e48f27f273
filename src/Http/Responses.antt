-- ===== src/Http/Responses.antt =====
-- The responses that serve writes itself: responseWith of util.go.
use wireproxy_homerun.Http.{Effect, respond}
use wireproxy_homerun.Prelude.{if◌then◌else◌, ℕ, Bool, Option, none, some, [], ◌∷◌, ◌++◌}
use wireproxy_homerun.Std.{Text, codes}
use wireproxy_homerun.Std.Decimal.{show_nat}

pub record HttpResponse : Type 0 where
  pub status_code : ℕ
  pub status : Text
  pub proto : Text
  pub proto_major : ℕ
  pub proto_minor : ℕ
  pub proxy_authenticate : Option Text
  pub body : Text

-- `status_text` is http.StatusText, and the others are the protocol of the request.
module _ (status_text : ℕ → Text) (proto : Text) (proto_major proto_minor : ℕ) where
  unfoldable pub response_with : ℕ → HttpResponse
  response_with status_code = record {
    status_code = status_code;
    status = status_text status_code;
    proto = proto;
    proto_major = proto_major;
    proto_minor = proto_minor;
    proxy_authenticate = none;
    body =
        codes "wireproxy:"
        ++ (b' '
            ∷ (proto
                ++ (b' '
                    ∷ (show_nat status_code
                        ++ (b' ' ∷ (status_text status_code ++ 13 ∷ 10 ∷ []))))));
  }

  -- The response of a refused request asks for credentials where `asks` says so.
  refusal : Bool → HttpResponse → HttpResponse
  refusal asks r =
      if asks then record r { proxy_authenticate = some (codes "Basic realm=\"Proxy\"") } else r

  -- The response of an effect, if it is one.
  unfoldable pub written_response : {Conn : Type 0} → Effect Conn → Option HttpResponse
  unfolding refusal
  written_response (respond code asks) = some (refusal asks (response_with code))
  written_response _ = none
