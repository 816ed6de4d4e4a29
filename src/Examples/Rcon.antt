-- ===== src/Examples/Rcon.antt =====
-- A command over RCON at a concrete input.
use mr1v.Base.{◌≡◌, refl, [], ◌∷◌, arith}
use mr1v.Js.Text.{codes}
use mr1v.Server.Rcon.{returned, asking, command_packet, execute}
use mr1v.Server.Rcon.Answered.{challenge_reply, output_reply, answering, execute-answering}

execute-answering_example :
    execute
      (codes "pw")
      (codes "amx_destroy")
      (answering (challenge_reply (codes "42") (0 ∷ [])) (output_reply (codes "ok") (0 ∷ 0 ∷ [])))
    ≡ (
      returned (codes "ok"),
      asking ∷ command_packet (codes "42") (codes "pw") (codes "amx_destroy") ∷ [],
    )
execute-answering_example =
    execute-answering (codes "pw") (codes "amx_destroy") (codes "42") (0 ∷ []) (codes "ok")
      (0 ∷ 0 ∷ []) (λ e. cc) ((refl, refl), ((refl, refl), tt)) (refl, tt) (refl, (refl, tt))
      (refl, (refl, tt)) (omega arith) (omega arith)
