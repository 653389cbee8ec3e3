-- ===== src/Tests/ServerSettings.antt =====
-- The server's settings at concrete values.
use pro_sa_hyper.Common.{ℕ, ◌≡◌, refl, none, some, List, [], ◌∷◌, false}
use pro_sa_hyper.Samples.Nets.{sample_net}
use pro_sa_hyper.Server.Settings.{parse_u16, default_listener}
use pro_sa_hyper.Server.Settings.Port.{default_listener_lem}

-- `+65535`, and one more.
abbrev last_port : List ℕ
last_port = b'+' ∷ b'6' ∷ b'5' ∷ b'5' ∷ b'3' ∷ b'5' ∷ []

abbrev no_port : List ℕ
no_port = b'6' ∷ b'5' ∷ b'5' ∷ b'3' ∷ b'6' ∷ []

parse_last : parse_u16 last_port ≡ some 65535
unfolding parse_u16
parse_last = refl

parse_over : parse_u16 no_port ≡ none
unfolding parse_u16
parse_over = refl

parse_sign : parse_u16 (b'+' ∷ []) ≡ none
unfolding parse_u16
parse_sign = refl

default_listener_lem_example :
    default_listener sample_net (some last_port)
    ≡ some (record { url = (false, 65535); ssl = none })
default_listener_lem_example =
    default_listener_lem sample_net (λ p. (false, p)) (some last_port) (λ p. refl)
