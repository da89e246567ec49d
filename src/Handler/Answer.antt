-- ===== src/Handler/Answer.antt =====
-- modcaddy/listener/listener.go and modcaddy/handler/handler.go: a TLS connection and its requests.
use clienthellod.Cryptobyte.{Cryptobyte}
use clienthellod.ClientHello.{ClientHello}
use clienthellod.Reservoir.{Reservoir}
use clienthellod.Handler.{Handler}
