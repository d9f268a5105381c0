-- ===== src/Edl/Chipsets/Newer.antt =====
-- The other arms of `chipset_name`, in order.
use rusty_cortex.Base.{ℕ, List, [], ◌∷◌, String}

unfoldable pub newer_chipsets : List (ℕ × String)
newer_chipsets =
    (0x1490E1, "rennell_v1.1")
    ∷ (0x1630E1, "sd7250")
    ∷ (0x11E0E1, "saipan")
    ∷ (0x1430E1, "saipan")
    ∷ (0x950E1, "SM6150")
    ∷ (0xEC0E1, "SM6150p")
    ∷ (0xF50E1, "SM6155")
    ∷ (0x100EE0E1, "SM6155p")
    ∷ (0xEE0E1, "SA6155p")
    ∷ (0x11C0E1, "QCS610")
    ∷ (0x1011C0E1, "SM6150_IoT_High")
    ∷ (0x1290E1, "SM6150_IoT_Low")
    ∷ (0xE60E1, "SM7150")
    ∷ (0xA50E1, "SM8150")
    ∷ (0xA60E1, "SM8150p")
    ∷ (0xCB0E1, "SDM855A")
    ∷ (0xC30E1, "SM8250")
    ∷ (0xCE0E1, "SM8250")
    ∷ (0x1560E1, "SM8250")
    ∷ (0xB80E1, "sc8180x")
    ∷ (0x1230E1, "sa8189P")
    ∷ (0x1510E1, "SA2150p")
    ∷ (0x14D0E1, "SDM662")
    ∷ (0x18A0E1, "fraser")
    ∷ (0x1920E1, "sm7325")
    ∷ (0x1930E1, "sc7280")
    ∷ (0x1940E1, "sc7295")
    ∷ (0x18B0E1, "qtang2")
    ∷ (0x12C0E1, "sc7180")
    ∷ (0x1A90E1, "strait")
    ∷ (0xB70E1, "SDM850")
    ∷ (0xE70E1, "SM7150p")
    ∷ (0xE80E1, "SA8155")
    ∷ (0xE90E1, "SA8155p")
    ∷ (0x1440E1, "chitwan")
    ∷ (0x6220E1, "MSM7227A")
    ∷ (0x8040E1, "APQ8026")
    ∷ (0x550E1, "APQ8017")
    ∷ (0x90F0E1, "APQ8037")
    ∷ (0x9770E1, "APQ8052")
    ∷ (0x9F00E1, "APQ8056")
    ∷ (0x9120E1, "APQ8062")
    ∷ (0x7190E1, "APQ8064")
    ∷ (0x9300E1, "APQ8092")
    ∷ (0x640E1, "APQ8096SG")
    ∷ (0x620E1, "APQ8098")
    ∷ (0x8110E1, "MSM8210")
    ∷ (0x8140E1, "MSM8212")
    ∷ (0x590E1, "MSM8217")
    ∷ (0x7BE0E1, "MSM8274_AA")
    ∷ (0x8120E1, "MSM8610")
    ∷ (0x8160E1, "MSM8112")
    ∷ (0x8170E1, "MSM8510")
    ∷ (0x8100E1, "MSM8110")
    ∷ (0x8130E1, "MSM8810")
    ∷ (0x8080E1, "MSM8512")
    ∷ (0x8150E1, "MSM8612")
    ∷ (0x8010E1, "MSM8626")
    ∷ (0x8050E1, "MSM8926")
    ∷ (0x9180E1, "MSM8928")
    ∷ (0x9170E1, "MSM8628")
    ∷ (0x7210E1, "MSM8930")
    ∷ (0x72C0E1, "MSM8960")
    ∷ (0x9B00E1, "MSM8956")
    ∷ (0x9100E1, "MSM8962")
    ∷ (0x7B00E1, "MSM8974")
    ∷ (0x7BD0E1, "MSM8674_AA")
    ∷ (0x7B30E1, "APQ8074")
    ∷ (0x7B40E1, "MSM8974AB")
    ∷ (0x7B80E1, "MSM8974Pro")
    ∷ (0x7BC0E1, "MSM8974ABv3")
    ∷ (0x6B10E1, "MSM8974AC")
    ∷ (0x5F0E1, "MSM8996Pro")
    ∷ (0x6C0E1, "MSM8997")
    ∷ (0x480E1, "MDM9207")
    ∷ (0xCC0E1, "SDM636")
    ∷ (0x930E1, "SDA670")
    ∷ (0x8B0E1, "SDM845")
    ∷ (0x1970E1, "qcm6490")
    ∷ (0x1980E1, "qcs6490")
    ∷ (0x9820E1, "msm8976")
    ∷ (0x8060E1, "msm8326")
    ∷ (0x9640E1, "msm8992")
    ∷ (0x7B50E1, "msm8674_pro")
    ∷ (0x80D0E1, "fsm9915")
    ∷ (0x9110E1, "msm8262")
    ∷ (0xBC0E1, "sda630")
    ∷ (0xF20E1, "sa4155p")
    ∷ (0xEF0E1, "sdm660")
    ∷ (0x8030E1, "msm8126")
    ∷ (0x9130E1, "apq8028")
    ∷ (0xB90E1, "sda450")
    ∷ (0x5A0E1, "msm8617")
    ∷ (0x13D0E1, "qcm2150")
    ∷ (0x8020E1, "msm8526")
    ∷ (0x80A0E1, "fsm9965")
    ∷ (0x80F0E1, "fsm9900")
    ∷ (0x9140E1, "msm8128")
    ∷ (0x9160E1, "msm8528")
    ∷ (0x8F0E1, "sdm830")
    ∷ (0x9D0E1, "sda658")
    ∷ (0x8D0E1, "sdm658")
    ∷ (0x9830E1, "apq8076")
    ∷ (0x80C0E1, "fsm9950")
    ∷ (0x80E0E1, "fsm9910")
    ∷ (0x15A0E1, "qrb516")
    ∷ (0x8000E1, "msm8226")
    ∷ (0x9D70E1, "msm8229")
    ∷ (0x90E0E1, "msm8236")
    ∷ (0x9660E1, "mdm9309")
    ∷ (0x4E0E1, "apq8096au")
    ∷ (0x9570E1, "msm8239")
    ∷ (0x1990E1, "OlympicLE")
    ∷ (0xDA0E1, "sc8180xp")
    ∷ (0x6B00E1, "MSM8230")
    ∷ (0x6B40E1, "MSM8630")
    ∷ (0x6B50E1, "MSM8230AB")
    ∷ (0x7150E1, "MSM8130")
    ∷ (0x7200E1, "APQ8030")
    ∷ (0x7220E1, "APQ8030AA")
    ∷ (0x7940E1, "APQ8074")
    ∷ (0x7980E1, "APQ8074AA")
    ∷ (0x7D00E1, "MSM8974AA")
    ∷ (0x7D10E1, "MSM8974AAv2")
    ∷ (0x7530E1, "MSM8x74")
    ∷ (0x7E10E1, "APQ8074AB")
    ∷ (0x8910E1, "MSM8x10")
    ∷ (0x8920E1, "MSM8x12")
    ∷ (0x8A20E1, "APQ8x12")
    ∷ (0x8F10E1, "MSM8936")
    ∷ (0x9150E1, "MSM8x26")
    ∷ (0x9510E1, "MDM9x55")
    ∷ (0x3E0E1, "MSM8x37")
    ∷ (0x1870E1, "MSM8x39")
    ∷ []
