-- ===== src/Handler/Visitors.antt =====
-- modcaddy/handler/handler.go: two requests from one IP to a handler for QUIC.
use clienthellod.Common.{ℕ, List}
use clienthellod.QuicFingerprinter.{QuicFingerprint}
use clienthellod.Reservoir.{Reservoir}
use clienthellod.Handler.{Handler, Request, Response, Services, reply}

module _ (S : Services) (sha1 : List ℕ → List ℕ) where
  -- What a handler for QUIC replies to a request with a fingerprint.
  abbrev pub shows : Request → QuicFingerprint → Response
  shows req f =
      reply req (S.marshal_fingerprint req.beautify (record f { user_agent = req.user_agent }))
