-- ===== src/Connection/Config.antt =====
-- The active-safety settings of src/Connection.cpp on the wire: sent as opcode 0x35, and read
-- from the sensor's answer to 0x34.
pub mod RoundTrip
use subiaoserver.Common.{
  ℕ, List, [], ◌∷◌, ◌++◌, ◌==◌, if◌then◌else◌, replicate, Outcome, done, throws, undefined,
  diverges, Exec, ◌>>=◌, ◌>>◌, pure,
}
use subiaoserver.Common.Words.{UInt, uint8, uint16, uint32}
use subiaoserver.Endian.{swap_endian}
use subiaoserver.ByteBuffer.Streams.{Values}
use subiaoserver.ByteBuffer.Operators.{Op, into, assign, skip, run_ops}
use subiaoserver.Connection.{Connection, put_buffer, set_settings}
use subiaoserver.Connection.Reads.{read_into}
use subiaoserver.Connection.Globals.{Settings, CameraSettings, DsmSettings, AdasSettings}
use subiaoserver.Connection.Packets.{send, header}

abbrev pub adas_id : ℕ
adas_id = 0x64

abbrev pub dms_id : ℕ
dms_id = 0x65

abbrev u8 : ℕ → UInt × ℕ
u8 v = (uint8, v)

-- The settings that both kinds of sensor have, at the front of the message.
abbrev pub camera_values : CameraSettings → Values
camera_values s =
    u8 s.speedthreshold
    ∷ u8 s.volumn
    ∷ u8 s.activephoestagy
    ∷ (uint16, swap_endian uint16 s.timedslice)
    ∷ (uint16, swap_endian uint16 s.distanceslice)
    ∷ u8 s.picturequality
    ∷ u8 s.pictureslice
    ∷ u8 s.picresolution
    ∷ u8 s.videoresolution
    ∷ []

-- `sendADASactivesetconfigpacket` behind the header.
abbrev pub adas_values : Settings → Values
adas_values g =
    let s = g.adas in
    camera_values g.camera
    ++ (replicate 9 (u8 g.reschar)
        ++ (u8 s.obstacledistance
            ∷ u8 s.obstaclevideotime
            ∷ u8 s.obstaclepicsno
            ∷ u8 s.obstaclepicslice
            ∷ u8 s.departuretime
            ∷ u8 s.departurecnt
            ∷ u8 s.departurevideotime
            ∷ u8 s.departurepicsno
            ∷ u8 s.departurepicslice
            ∷ u8 s.ldwvideotime
            ∷ u8 s.ldwpicsno
            ∷ u8 s.ldwpicslice
            ∷ u8 s.fcwtime
            ∷ u8 s.fcwvideotime
            ∷ u8 s.fcwpicsno
            ∷ u8 s.fcwpicslice
            ∷ u8 s.pcwtime
            ∷ u8 s.pcwvideotime
            ∷ u8 s.pcwpicsno
            ∷ u8 s.pcwpicslice
            ∷ u8 s.carclosetime
            ∷ u8 s.carclosevideotime
            ∷ u8 s.carclosepicsno
            ∷ u8 s.carclosepicslice
            ∷ u8 s.tsrpicsno
            ∷ u8 s.tsrpicslice
            ∷ replicate 4 (u8 g.reschar)))

-- `sendDSMactivesetconfigpacket` behind the header.
abbrev pub dsm_values : Settings → Values
dsm_values g =
    let s = g.dsm in
    camera_values g.camera
    ++ (replicate 10 (u8 g.reschar)
        ++ ((uint16, swap_endian uint16 s.smokingtime)
            ∷ (uint16, swap_endian uint16 s.calltime)
            ∷ u8 s.drownvideotime
            ∷ u8 s.drownpicsno
            ∷ u8 s.drownpicslice
            ∷ u8 g.reschar
            ∷ u8 s.callvideotime
            ∷ u8 s.callpicsno
            ∷ u8 s.callpicslice
            ∷ u8 s.smokingvideotime
            ∷ u8 s.smokingpicsno
            ∷ u8 s.smokingpicslice
            ∷ u8 s.distractionvideotime
            ∷ u8 s.distractionpicsno
            ∷ u8 s.distractionpicslice
            ∷ u8 s.abnormalvideotime
            ∷ u8 s.abnormalpicsno
            ∷ u8 s.abnormalpicslice
            ∷ replicate 2 (u8 g.reschar)))

unfoldable pub send_adasactivesetconfigpacket : Exec Connection (Unit {0})
send_adasactivesetconfigpacket c = send 0x35 (header 0x35 c ++ adas_values c.settings) c

unfoldable pub send_dsmactivesetconfigpacket : Exec Connection (Unit {0})
send_dsmactivesetconfigpacket c = send 0x35 (header 0x35 c ++ dsm_values c.settings) c

-- `sendactivesetconfigpacket`: one `if` after the other.
unfoldable pub sendactivesetconfigpacket : Exec Connection (Unit {0})
sendactivesetconfigpacket = do
  (λ c.
      if c.header.s_terminalcode_id == adas_id then send_adasactivesetconfigpacket c else done tt c)
  (λ c. if c.header.s_terminalcode_id == dms_id then send_dsmactivesetconfigpacket c else done tt c)

abbrev in_camera : (ℕ → CameraSettings → CameraSettings) → ℕ → Settings → Settings
in_camera set v g = record g { camera = set v g.camera }

abbrev in_adas : (ℕ → AdasSettings → AdasSettings) → ℕ → Settings → Settings
in_adas set v g = record g { adas = set v g.adas }

abbrev in_dsm : (ℕ → DsmSettings → DsmSettings) → ℕ → Settings → Settings
in_dsm set v g = record g { dsm = set v g.dsm }

abbrev swap16 : ℕ → ℕ
swap16 = swap_endian uint16

abbrev pub camera_ops : List (Op Settings)
camera_ops =
    into uint8 (in_camera λ v s. record s { speedthreshold = v })
    ∷ into uint8 (in_camera λ v s. record s { volumn = v })
    ∷ into uint8 (in_camera λ v s. record s { activephoestagy = v })
    ∷ into uint16 (in_camera λ v s. record s { timedslice = v })
    ∷ assign (λ g. in_camera (λ v s. record s { timedslice = v }) (swap16 g.camera.timedslice) g)
    ∷ into uint16 (in_camera λ v s. record s { distanceslice = v })
    ∷ assign
        (λ g. in_camera (λ v s. record s { distanceslice = v }) (swap16 g.camera.distanceslice) g)
    ∷ into uint8 (in_camera λ v s. record s { picturequality = v })
    ∷ into uint8 (in_camera λ v s. record s { pictureslice = v })
    ∷ into uint8 (in_camera λ v s. record s { picresolution = v })
    ∷ into uint8 (in_camera λ v s. record s { videoresolution = v })
    ∷ []

-- `handleADASactivesetconfigpacket`.
abbrev pub adas_ops : List (Op Settings)
adas_ops =
    camera_ops
    ++ (skip 9
        ∷ into uint8 (in_adas λ v s. record s { obstacledistance = v })
        ∷ into uint8 (in_adas λ v s. record s { obstaclevideotime = v })
        ∷ into uint8 (in_adas λ v s. record s { obstaclepicsno = v })
        ∷ into uint8 (in_adas λ v s. record s { obstaclepicslice = v })
        ∷ into uint8 (in_adas λ v s. record s { departuretime = v })
        ∷ into uint8 (in_adas λ v s. record s { departurecnt = v })
        ∷ into uint8 (in_adas λ v s. record s { departurevideotime = v })
        ∷ into uint8 (in_adas λ v s. record s { departurepicsno = v })
        ∷ into uint8 (in_adas λ v s. record s { departurepicslice = v })
        ∷ into uint8 (in_adas λ v s. record s { ldwvideotime = v })
        ∷ into uint8 (in_adas λ v s. record s { ldwpicsno = v })
        ∷ into uint8 (in_adas λ v s. record s { ldwpicslice = v })
        ∷ into uint8 (in_adas λ v s. record s { fcwtime = v })
        ∷ into uint8 (in_adas λ v s. record s { fcwvideotime = v })
        ∷ into uint8 (in_adas λ v s. record s { fcwpicsno = v })
        ∷ into uint8 (in_adas λ v s. record s { fcwpicslice = v })
        ∷ into uint8 (in_adas λ v s. record s { pcwtime = v })
        ∷ into uint8 (in_adas λ v s. record s { pcwvideotime = v })
        ∷ into uint8 (in_adas λ v s. record s { pcwpicsno = v })
        ∷ into uint8 (in_adas λ v s. record s { pcwpicslice = v })
        ∷ into uint8 (in_adas λ v s. record s { carclosetime = v })
        ∷ into uint8 (in_adas λ v s. record s { carclosevideotime = v })
        ∷ into uint8 (in_adas λ v s. record s { carclosepicsno = v })
        ∷ into uint8 (in_adas λ v s. record s { carclosepicslice = v })
        ∷ into uint8 (in_adas λ v s. record s { tsrpicsno = v })
        ∷ into uint8 (in_adas λ v s. record s { tsrpicslice = v })
        ∷ skip 4
        ∷ [])

-- `handleDSMactivesetconfigpacket`.
abbrev pub dsm_ops : List (Op Settings)
dsm_ops =
    camera_ops
    ++ (skip 10
        ∷ into uint16 (in_dsm λ v s. record s { smokingtime = v })
        ∷ into uint16 (in_dsm λ v s. record s { calltime = v })
        ∷ assign (λ g. in_dsm (λ v s. record s { smokingtime = v }) (swap16 g.dsm.smokingtime) g)
        ∷ assign (λ g. in_dsm (λ v s. record s { calltime = v }) (swap16 g.dsm.calltime) g)
        ∷ into uint8 (in_dsm λ v s. record s { drownvideotime = v })
        ∷ into uint8 (in_dsm λ v s. record s { drownpicsno = v })
        ∷ into uint8 (in_dsm λ v s. record s { drownpicslice = v })
        ∷ into uint8 (λ v g. record g { reschar = v })
        ∷ into uint8 (in_dsm λ v s. record s { callvideotime = v })
        ∷ into uint8 (in_dsm λ v s. record s { callpicsno = v })
        ∷ into uint8 (in_dsm λ v s. record s { callpicslice = v })
        ∷ into uint8 (in_dsm λ v s. record s { smokingvideotime = v })
        ∷ into uint8 (in_dsm λ v s. record s { smokingpicsno = v })
        ∷ into uint8 (in_dsm λ v s. record s { smokingpicslice = v })
        ∷ into uint8 (in_dsm λ v s. record s { distractionvideotime = v })
        ∷ into uint8 (in_dsm λ v s. record s { distractionpicsno = v })
        ∷ into uint8 (in_dsm λ v s. record s { distractionpicslice = v })
        ∷ into uint8 (in_dsm λ v s. record s { abnormalvideotime = v })
        ∷ into uint8 (in_dsm λ v s. record s { abnormalpicsno = v })
        ∷ into uint8 (in_dsm λ v s. record s { abnormalpicslice = v })
        ∷ skip 2
        ∷ [])

-- Reads of `readpacket` into the global variables.
abbrev pub read_settings : List (Op Settings) → Exec Connection (Unit {0})
read_settings = read_into (λ c. c.settings) set_settings

unfoldable pub handle_adasactivesetconfigpacket : Exec Connection (Unit {0})
handle_adasactivesetconfigpacket = read_settings adas_ops

unfoldable pub handle_dsmactivesetconfigpacket : Exec Connection (Unit {0})
handle_dsmactivesetconfigpacket = read_settings dsm_ops

-- `handleactivesetconfigpacket`.
unfoldable pub handleactivesetconfigpacket : Exec Connection (Unit {0})
unfolding handle_adasactivesetconfigpacket handle_dsmactivesetconfigpacket
handleactivesetconfigpacket = do
  (λ c.
      if c.header.s_terminalcode_id == adas_id
      then handle_adasactivesetconfigpacket c
      else done tt c)
  (λ c.
      if c.header.s_terminalcode_id == dms_id then handle_dsmactivesetconfigpacket c else done tt c)
