-- ===== src/Command/Tests.antt =====
-- Messages that command/parser.go reads.
use frps_gateway.Base.{◌≡◌, refl, [], ◌∷◌, hour, arith}
use frps_gateway.Duration.{format, split_from, segments, total}
use frps_gateway.Duration.Parse.Tally.{tally, tally_laws}
use frps_gateway.Command.{
  add_ip, remove_ip, fail_with, succeed, plain_command, apply_link, add_missing, unknown_operation,
  parse_command,
}
use frps_gateway.Command.Plain.{words, texts}
use frps_gateway.Command.Outcome.{Valid, parse_command-Valid}
use frps_gateway.Command.RoundTrip.{parse_command-add}

granted :
    parse_command texts "申请授权 1.2.3.4"
    ≡ succeed (record { action = add_ip; ip = "1.2.3.4"; ttl = 0 })
unfolding parse_command
granted = refl

glued :
    parse_command texts "撤销授权1.2.3.4"
    ≡ succeed (record { action = remove_ip; ip = "1.2.3.4"; ttl = 0 })
unfolding parse_command
glued = refl

link_asked : parse_command texts "授权" ≡ succeed (plain_command apply_link)
unfolding parse_command
link_asked = refl

nothing_named : parse_command texts "申请授权" ≡ fail_with add_missing
unfolding parse_command
nothing_named = refl

not_known : parse_command texts "hello" ≡ fail_with unknown_operation
unfolding parse_command
not_known = refl

parsed_example : Valid texts (parse_command texts "申请授权 1.2.3.4 10h")
parsed_example = parse_command-Valid texts "申请授权 1.2.3.4 10h"

written_words : words "申请授权 1.2.3.4 10h" ≡ "申请授权" ∷ "1.2.3.4" ∷ format tally hour ∷ []
unfolding format split_from
written_words = refl

add_example :
    parse_command texts "申请授权 1.2.3.4 10h"
    ≡ succeed (record { action = add_ip; ip = "1.2.3.4"; ttl = total (split_from segments 2 hour) })
add_example =
    parse_command-add texts tally tally_laws (λ s h. refl) "申请授权 1.2.3.4 10h" "申请授权" "1.2.3.4" hour
      written_words refl refl refl refl (ground arith) (ground arith)
