-- ===== src/Connection/Globals.antt =====
-- The global variables of src/Connection.cpp that its functions read or write, shared by all
-- connections. `jt808sync`, `terminalcodeID` and the reserved arrays are read by nothing.
use subiaoserver.Common.{ℕ}
use subiaoserver.Common.Words.{uint16}
use subiaoserver.Endian.{swap_endian}

pub record AdasSettings : Type 0 where
  pub obstacledistance : ℕ
  pub obstaclevideotime : ℕ
  pub obstaclepicsno : ℕ
  pub obstaclepicslice : ℕ
  pub departuretime : ℕ
  pub departurecnt : ℕ
  pub departurevideotime : ℕ
  pub departurepicsno : ℕ
  pub departurepicslice : ℕ
  pub ldwvideotime : ℕ
  pub ldwpicsno : ℕ
  pub ldwpicslice : ℕ
  pub fcwtime : ℕ
  pub fcwvideotime : ℕ
  pub fcwpicsno : ℕ
  pub fcwpicslice : ℕ
  pub pcwtime : ℕ
  pub pcwvideotime : ℕ
  pub pcwpicsno : ℕ
  pub pcwpicslice : ℕ
  pub carclosetime : ℕ
  pub carclosevideotime : ℕ
  pub carclosepicsno : ℕ
  pub carclosepicslice : ℕ
  pub tsrpicsno : ℕ
  pub tsrpicslice : ℕ

pub record DsmSettings : Type 0 where
  pub smokingtime : ℕ
  pub calltime : ℕ
  pub drownvideotime : ℕ
  pub drownpicsno : ℕ
  pub drownpicslice : ℕ
  pub callvideotime : ℕ
  pub callpicsno : ℕ
  pub callpicslice : ℕ
  pub smokingvideotime : ℕ
  pub smokingpicsno : ℕ
  pub smokingpicslice : ℕ
  pub distractionvideotime : ℕ
  pub distractionpicsno : ℕ
  pub distractionpicslice : ℕ
  pub abnormalvideotime : ℕ
  pub abnormalpicsno : ℕ
  pub abnormalpicslice : ℕ

pub record CameraSettings : Type 0 where
  pub speedthreshold : ℕ
  pub volumn : ℕ
  pub activephoestagy : ℕ
  pub timedslice : ℕ
  pub distanceslice : ℕ
  pub picturequality : ℕ
  pub pictureslice : ℕ
  pub picresolution : ℕ
  pub videoresolution : ℕ

pub record Settings : Type 0 where
  pub manufacture_id : ℕ
  pub sequencemsgcnt : ℕ
  pub reschar : ℕ
  pub camera : CameraSettings
  pub dsm : DsmSettings
  pub adas : AdasSettings

abbrev pub default_camera : CameraSettings
default_camera = record {
  speedthreshold = 30;
  volumn = 6;
  activephoestagy = 0;
  timedslice = 5;
  distanceslice = 2;
  picturequality = 3;
  pictureslice = 2;
  picresolution = 1;
  videoresolution = 1;
}

abbrev pub default_dsm : DsmSettings
default_dsm = record {
  smokingtime = 180;
  calltime = 120;
  drownvideotime = 5;
  drownpicsno = 3;
  drownpicslice = 2;
  callvideotime = 5;
  callpicsno = 3;
  callpicslice = 2;
  smokingvideotime = 5;
  smokingpicsno = 3;
  smokingpicslice = 2;
  distractionvideotime = 5;
  distractionpicsno = 3;
  distractionpicslice = 3;
  abnormalvideotime = 5;
  abnormalpicsno = 3;
  abnormalpicslice = 2;
}

abbrev pub default_adas : AdasSettings
default_adas = record {
  obstacledistance = 30;
  obstaclevideotime = 5;
  obstaclepicsno = 3;
  obstaclepicslice = 2;
  departuretime = 60;
  departurecnt = 5;
  departurevideotime = 5;
  departurepicsno = 3;
  departurepicslice = 2;
  ldwvideotime = 5;
  ldwpicsno = 3;
  ldwpicslice = 2;
  fcwtime = 27;
  fcwvideotime = 5;
  fcwpicsno = 3;
  fcwpicslice = 2;
  pcwtime = 30;
  pcwvideotime = 5;
  pcwpicsno = 3;
  pcwpicslice = 2;
  carclosetime = 30;
  carclosevideotime = 5;
  carclosepicsno = 3;
  carclosepicslice = 2;
  tsrpicsno = 3;
  tsrpicslice = 2;
}

-- The initialisers. `sequencemsgcnt` is a 32-bit zero, swapped and cut to 16 bits.
unfoldable pub initial_settings : Settings
unfolding swap_endian
initial_settings = record {
  manufacture_id = swap_endian uint16 0x1234;
  sequencemsgcnt = 0;
  reschar = 0;
  camera = default_camera;
  dsm = default_dsm;
  adas = default_adas;
}
