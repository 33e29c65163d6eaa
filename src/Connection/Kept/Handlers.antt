-- ===== src/Connection/Kept/Handlers.antt =====
-- The handlers of messages and timers, by the rules for their parts.
use subiaoserver.Common.{
  ℕ, zero, suc, Bool, true, false, List, [], ◌∷◌, ◌≡◌, refl, sym, ap, ◌∙◌, if◌then◌else◌, ◌>>◌,
  pure, modify, Option, none, some,
}
use mathlib.Core.Path.{subst}
use subiaoserver.Common.Keeps.{Ends, Keeps-modify, Keeps-bind, Keeps-then, keeps_rules}
use subiaoserver.Connection.{Connection, MediaInfo, set_settings}
use subiaoserver.Connection.Config.{
  handle_adasactivesetconfigpacket, handle_dsmactivesetconfigpacket, handleactivesetconfigpacket,
}
use subiaoserver.Connection.Media.{
  Library, getalarmsmedia, sendmultimediarequest, sendattachmentload_ack, write_file, close_file,
  unpack_piece, store_piece, handlattachmentload, read_media, read_report, handladasealarmreport,
  handledsmalarmreport, handlealarmreport, Alarm,
}
use subiaoserver.Connection.Media.Listing.{turned, sendmultimediarequest-turned}
use subiaoserver.Connection.Media.Pieces.{ack_framed, numbered, acknowledged}
use subiaoserver.ByteBuffer.Operators.Steady.{clearheader-IsSteady, contents-IsSteady}
use subiaoserver.ByteBuffer.{clearheader, contents}
use subiaoserver.ByteBuffer.Operators.{Op}
use subiaoserver.Connection.Kept.{
  Sides, sides, Survives, KeepsSides, framed-Ends, on_readpacket-Keeps, read_locals-Keeps,
  read_into-Keeps, sendcurrentmultimediarequest-Keeps,
}

turned-sides :
    (lib : Library) (ms : List MediaInfo) (c : Connection) → sides (turned lib ms c) ≡ sides c
turned-sides lib [] c = refl
turned-sides lib (m ∷ ms) c = refl

sendmultimediarequest-sides :
    (lib : Library) (c : Connection) → sides (sendmultimediarequest lib c) ≡ sides c
sendmultimediarequest-sides lib c =
    ap sides (sendmultimediarequest-turned lib c.m_mediainfodescription c)
    ∙ turned-sides lib c.m_mediainfodescription c

module _ (Q : Sides → Type 0) (survives : Survives Q) where
  pub getalarmsmedia-Keeps : (ec : Bool) → KeepsSides Q survives (getalarmsmedia ec)
  unfolding getalarmsmedia
  getalarmsmedia-Keeps ec =
      Keeps-then _ _ (sendcurrentmultimediarequest-Keeps Q survives) (Keeps-modify _ (λ c h. h))

  next-Keeps : (lib : Library) → KeepsSides Q survives (modify (sendmultimediarequest lib))
  next-Keeps lib = record { at = λ c h. subst Q (sym (sendmultimediarequest-sides lib c)) h }

  write-Ends :
      (m : Option ℕ) (bytes : List ℕ) (c : Connection)
      → Q (sides c)
      → Ends (λ d. Q (sides d)) (write_file m bytes c)
  unfolding write_file
  write-Ends none bytes c h = tt
  write-Ends (some f) bytes c h = h

  close-Ends :
      (m : Option ℕ) (c : Connection) → Q (sides c) → Ends (λ d. Q (sides d)) (close_file m c)
  unfolding close_file
  close-Ends none c h = tt
  close-Ends (some f) c h = h

  ack-Keeps : KeepsSides Q survives sendattachmentload_ack
  ack-Keeps = record {
    at = λ c h.
        let (sent, lo, hi) = ack_framed c in
        framed-Ends Q survives sendattachmentload_ack c (numbered c) 0x51 (acknowledged c) sent lo
          hi h;
  }

  finish-Keeps :
      (lib : Library) (last : Bool)
      → KeepsSides Q survives (do
        sendattachmentload_ack
        if last
            then (do (λ s. close_file s.m_file s); modify (sendmultimediarequest lib))
            else pure tt)
  finish-Keeps lib true =
      Keeps-then _ _ ack-Keeps
        (Keeps-then _ _ (record { at = λ c h. close-Ends c.m_file c h }) (next-Keeps lib))
  finish-Keeps lib false = Keeps-then _ _ ack-Keeps (record { at = λ c h. h })

  pub store_piece-Keeps :
      (lib : Library) (bytes : List ℕ) → KeepsSides Q survives (store_piece lib bytes)
  unfolding store_piece
  store_piece-Keeps lib bytes =
      Keeps-then _ _ (record { at = λ c h. write-Ends c.m_file bytes c h })
        (record { at = λ c h. (finish-Keeps lib _).at c h })

  unpack_piece-Keeps : KeepsSides Q survives unpack_piece
  unfolding unpack_piece
  unpack_piece-Keeps = Keeps-then _ _ (Keeps-modify _ (λ c h. h)) (
      Keeps-then _ _ (read_into-Keeps Q survives _ _ _ (λ c s h. h)) (
        Keeps-then _ _ (on_readpacket-Keeps Q survives clearheader clearheader-IsSteady)
          (on_readpacket-Keeps Q survives contents contents-IsSteady)))

  pub handlattachmentload-Keeps : (lib : Library) → KeepsSides Q survives (handlattachmentload lib)
  unfolding handlattachmentload
  handlattachmentload-Keeps lib = search (keeps_rules, unpack_piece-Keeps, store_piece-Keeps)

  read_media-Keeps : (rounds : ℕ) → KeepsSides Q survives (read_media rounds)
  unfolding read_media
  read_media-Keeps zero = record { at = λ c h. h }
  read_media-Keeps (suc rounds) =
      Keeps-bind _ _ (read_locals-Keeps Q survives _ _)
        (λ m. Keeps-then _ _ (Keeps-modify _ (λ c h. h)) (read_media-Keeps rounds))

  read_report-Keeps :
      (ops : List (Op Alarm)) (lib : Library) → KeepsSides Q survives (read_report ops lib)
  unfolding read_report
  read_report-Keeps ops lib = Keeps-bind _ _ (read_locals-Keeps Q survives _ ops) (λ a.
      Keeps-then _ _ (Keeps-modify _ (λ c h. h))
        (Keeps-then _ _ (read_media-Keeps a.mediacnt) (next-Keeps lib)))

  pub handlealarmreport-Keeps : (lib : Library) → KeepsSides Q survives (handlealarmreport lib)
  unfolding handlealarmreport handladasealarmreport handledsmalarmreport
  handlealarmreport-Keeps lib = search (keeps_rules, read_report-Keeps)

  pub handleactivesetconfigpacket-Keeps : KeepsSides Q survives handleactivesetconfigpacket
  unfolding handleactivesetconfigpacket handle_adasactivesetconfigpacket
      handle_dsmactivesetconfigpacket
  handleactivesetconfigpacket-Keeps =
      search (keeps_rules, read_into-Keeps Q survives _ set_settings _ (λ c s h. h))
