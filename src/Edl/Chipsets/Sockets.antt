-- ===== src/Edl/Chipsets/Sockets.antt =====
-- The arms of `sochw_name`, in order.
use rusty_cortex.Base.{ℕ, List, [], ◌∷◌, String}

unfoldable pub sochw_chipsets : List (ℕ × String)
sochw_chipsets =
    (0x2013, "MDM9205")
    ∷ (0x2014, "qcs405")
    ∷ (0x2017, "IPQ6018")
    ∷ (0x3002, "MSM8998_SDM835")
    ∷ (0x3006, "SDM660")
    ∷ (0x3007, "SDM630")
    ∷ (0x4003, "QCA4020")
    ∷ (0x4004, "IPQ8074")
    ∷ (0x400A, "QCA6390")
    ∷ (0x400B, "QCN7605")
    ∷ (0x400D, "QCN9000")
    ∷ (0x4014, "moselle")
    ∷ (0x4017, "WCN7850")
    ∷ (0x6000, "SDM845")
    ∷ (0x6001, "SDA845")
    ∷ (0x6002, "SDX24")
    ∷ (0x6003, "SM8150")
    ∷ (0x6004, "SDM670")
    ∷ (0x6005, "SDM670")
    ∷ (0x6006, "sc8180x")
    ∷ (0x6007, "SM6150")
    ∷ (0x6008, "SM8250")
    ∷ (0x6009, "SDM670")
    ∷ (0x600B, "SDX55")
    ∷ (0x600C, "SM7150")
    ∷ (0x600D, "saipan")
    ∷ (0x600E, "rennell")
    ∷ (0x600F, "lahaina")
    ∷ (0x6012, "bitra_SDM")
    ∷ (0x6013, "chitwan")
    ∷ (0x6014, "SC8280X")
    ∷ (0x6016, "olympic_v1")
    ∷ (0x6017, "cedros")
    ∷ (0x6018, "sm7325")
    ∷ (0x7001, "qtang2")
    ∷ (0x7200, "SDM662")
    ∷ (0x9001, "nicobar")
    ∷ (0x9002, "kamorta")
    ∷ (0x9003, "agatti")
    ∷ (0x9004, "mannar")
    ∷ (0x9006, "strait")
    ∷ (0x9007, "divar")
    ∷ []
