-- ===== src/Edl/Chipsets/Older.antt =====
-- The first arms of `chipset_name`, in order.
use rusty_cortex.Base.{ℕ, List, [], ◌∷◌, String}

unfoldable pub older_chipsets : List (ℕ × String)
older_chipsets =
    (0x9440E1, "QDF2432")
    ∷ (0x9780E1, "IPQ4018")
    ∷ (0x9790E1, "IPQ4019")
    ∷ (0x160E1, "QCA4020")
    ∷ (0x9D00E1, "APQ8076")
    ∷ (0x8A0E1, "APQ807x")
    ∷ (0x9000E1, "APQ8084")
    ∷ (0x9010E1, "APQ8084")
    ∷ (0x9630E1, "APQ8092")
    ∷ (0x9410E1, "APQ8094")
    ∷ (0x940E1, "MSM8905")
    ∷ (0x9600E1, "MSM8909")
    ∷ (0x9680E1, "APQ8009")
    ∷ (0x510E1, "MSM8909w")
    ∷ (0x520E1, "APQ8009w")
    ∷ (0x960E1, "SDX24")
    ∷ (0x970E1, "SDX24M")
    ∷ (0x7050E1, "MSM8916")
    ∷ (0x7060E1, "APQ8016")
    ∷ (0x560E1, "MSM8917")
    ∷ (0x860E1, "MSM8920")
    ∷ (0x91B0E1, "MSM8929")
    ∷ (0x4F0E1, "MSM8937")
    ∷ (0x90B0E1, "MSM8939")
    ∷ (0x90C0E1, "APQ8036")
    ∷ (0x500E1, "APQ8037")
    ∷ (0x90D0E1, "APQ8039")
    ∷ (0x9620E1, "MSM8208")
    ∷ (0x6B0E1, "MSM8940")
    ∷ (0x9720E1, "MSM8952")
    ∷ (0x460E1, "MSM8953")
    ∷ (0x660E1, "APQ8053")
    ∷ (0x9900E1, "MSM8976")
    ∷ (0x9690E1, "MSM8992")
    ∷ (0x9400E1, "MSM8994")
    ∷ (0x9470E1, "MSM8996")
    ∷ (0x6F0E1, "MSM8996AU")
    ∷ (0x630E1, "MSM8996AU")
    ∷ (0x5E0E1, "MSM8998_SDM835")
    ∷ (0x94B0E1, "MSM9055")
    ∷ (0x7F00E1, "MDM8225")
    ∷ (0x7F30E1, "MDM8225M")
    ∷ (0x9730E1, "MDM9206")
    ∷ (0x9530E1, "MDM9245M")
    ∷ (0x9200E1, "MDM9635")
    ∷ (0x4A0E1, "MDM9607")
    ∷ (0x9670E1, "MDM9609")
    ∷ (0x8090E1, "MDM9916")
    ∷ (0x80B0E1, "MDM9955")
    ∷ (0x9210E1, "MDM9x35")
    ∷ (0x9500E1, "MDM9x40")
    ∷ (0x9540E1, "MDM9x45")
    ∷ (0x3A0E1, "MDM9x50")
    ∷ (0x7F50E1, "MDM9x25")
    ∷ (0x7F40E1, "MDM9625")
    ∷ (0x7F10E1, "MSM9225_1")
    ∷ (0x320E1, "MDM9250")
    ∷ (0x340E1, "MDM9255")
    ∷ (0x390E1, "MDM9350")
    ∷ (0x3B0E1, "MDM9x55")
    ∷ (0x7D0E1, "MDM9x60")
    ∷ (0x7F0E1, "MDM9x65")
    ∷ (0x1280E1, "fsm100xx")
    ∷ (0x1650E1, "FSM10000")
    ∷ (0x1680E1, "FSM10005")
    ∷ (0x1690E1, "FSM10010")
    ∷ (0x16A0E1, "FSM10051")
    ∷ (0x16B0E1, "FSM10056")
    ∷ (0x1530E1, "ipq5018")
    ∷ (0xC50E1, "sda439")
    ∷ (0x1610E1, "olympic_v1")
    ∷ (0x1720E1, "olympic_v1_hybrid")
    ∷ (0x1060E1, "qm215")
    ∷ (0xBE0E1, "SDM429")
    ∷ (0xBF0E1, "SDM439")
    ∷ (0x9A0E1, "SDM450")
    ∷ (0xAC0E1, "SDM630")
    ∷ (0xBA0E1, "SDM632")
    ∷ (0xBB0E1, "SDA632")
    ∷ (0x8C0E1, "SDM660")
    ∷ (0x7B0E1, "SDX50M")
    ∷ (0xE50E1, "SDX55")
    ∷ (0xCF0E1, "SDX55M")
    ∷ (0x1250E1, "SA515M")
    ∷ (0xAB0E1, "QCA6290")
    ∷ (0xD90E1, "QCA6390")
    ∷ (0x1310E1, "QCA6480")
    ∷ (0x12E0E1, "QCA6481")
    ∷ (0x12D0E1, "QCA6491")
    ∷ (0xD70E1, "QCA6595")
    ∷ (0xD30E1, "QCN7605")
    ∷ (0xD50E1, "QCN7606")
    ∷ (0x910E1, "SDM670")
    ∷ (0xDB0E1, "SDM710")
    ∷ (0xAA0E1, "QCS605")
    ∷ (0xED0E1, "SXR1120")
    ∷ (0xEA0E1, "SXR1130")
    ∷ (0x8E0E1, "SDA845")
    ∷ (0x1A60E1, "WCN7850")
    ∷ (0x1A70E1, "WCN7851")
    ∷ (0x1260E1, "IPQ6018")
    ∷ (0x1070E1, "MDM9205")
    ∷ (0x1450E1, "agatti_mdm")
    ∷ (0x14F0E1, "agatti")
    ∷ (0x1850E1, "agatti_mdm_iot")
    ∷ (0x1860E1, "qcs2290")
    ∷ (0x13F0E1, "bitra_SDM")
    ∷ (0x1410E1, "bitra_SDA")
    ∷ (0x1590E1, "cedros")
    ∷ (0x1360E1, "kamorta")
    ∷ (0x1370E1, "kamorta_P")
    ∷ (0x1730E1, "kamorta_IoT_modem")
    ∷ (0x1740E1, "kamorta_IoT_APQ")
    ∷ (0x1C70E1, "kamorta_qrb")
    ∷ (0x1B80E1, "divar")
    ∷ (0x1350E1, "lahaina")
    ∷ (0x1520E1, "lahaina")
    ∷ (0x19E0E1, "lahaina")
    ∷ (0x1A40E1, "Vordonisi")
    ∷ (0x1420E1, "lahaina_premier")
    ∷ (0x14A0E1, "SC8280X")
    ∷ (0x14B0E1, "SA8295P")
    ∷ (0x14C0E1, "SA8540P")
    ∷ (0x16F0E1, "mannar")
    ∷ (0x16E0E1, "mannar_P")
    ∷ (0x1470E1, "moselle")
    ∷ (0x10A0E1, "nicobar")
    ∷ (0x1750E1, "nicobar_IoT_modem")
    ∷ (0x1760E1, "nicobar_IoT_APQ")
    ∷ (0x10B0E1, "QCN9000")
    ∷ (0x10C0E1, "QCN9001")
    ∷ (0x1150E1, "QCN9002")
    ∷ (0x10D0E1, "QCN9003")
    ∷ (0x10E0E1, "QCN9010")
    ∷ (0x10F0E1, "QCN9011")
    ∷ (0x1110E1, "QCN9012")
    ∷ (0x1140E1, "QCN9013")
    ∷ (0xE30E1, "qcs401")
    ∷ (0xE40E1, "qcs403")
    ∷ (0x1040E1, "qcs404")
    ∷ (0xAF0E1, "qcs405")
    ∷ (0xEB0E1, "qcs407")
    ∷ (0x400E1, "rennell_cb")
    ∷ (0x12A0E1, "rennell")
    ∷ (0x12B0E1, "rennell_premier")
    ∷ []
