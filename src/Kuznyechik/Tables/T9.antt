-- ===== src/Kuznyechik/Tables/T9.antt =====
-- internal/kuznyechik/tables.go: `t[9]`, 256 entries of two words.
use kubebao.Common.{ℕ, List, [], ◌∷◌}

unfoldable pub t_row9 : List (ℕ × ℕ)
t_row9 =
    (0xb3a97ed91e9d2ca8, 0xb483a3c43d6b01c0)
    ∷ (0x4c14776c9da46bb4, 0xaa39ded25980a017)
    ∷ (0xd8d18f72d6c39596, 0xce15226d28ed47b2)
    ∷ (0xcd43e90a399ceb1e, 0x9da554d42f9a5d63)
    ∷ (0x276c86c755fad28a, 0xd0af5f7b4c06e665)
    ∷ (0xda1d3753e15099f5, 0x07b14249e961e86f)
    ∷ (0x09d0f97526a1369f, 0x2787738203334f7d)
    ∷ (0x06970b63597614a5, 0x982fa06c805732a4)
    ∷ (0x787d9cb07e77d313, 0xb109577c92a66e07)
    ∷ (0x24c6621798c1d839, 0x9c590f4d0cccff37)
    ∷ (0xd7967d64a914b7ac, 0x71bdf183ab893a6b)
    ∷ (0x13056d1bb6296a2d, 0xcb9fd6d587202875)
    ∷ (0xf66df0c0a5987183, 0x393d0e9467d8eeaa)
    ∷ (0x8b2d83c34fa2bc86, 0x5ceda9b235e3ab5b)
    ∷ (0xf92a02d6da4f53b9, 0x8695dd7ae4bc9373)
    ∷ (0x2c70c79344c8e876, 0x3e8c4cdd8eb906c5)
    ∷ (0x87c09505fd4e940f, 0xafb32a6af64dcfd0)
    ∷ (0x260ada36af52d45a, 0x55fd6f69cd4050ea)
    ∷ (0x7bd77860b34cd9a0, 0xfdff074ad26c7755)
    ∷ (0xbcee8ccf614a0e92, 0x0b2b702abe0f7c19)
    ∷ (0xc65fa85e28aed1e2, 0x73864772ed25bdc3)
    ∷ (0x91f817addf2ae034, 0xb0f50ce5b1f0cc53)
    ∷ (0x6a1ead5a32f6bfee, 0xffc4b1bb94c0f0fd)
    ∷ (0x9c735d9a976ece6d, 0xc6f9bf2ff3181e57)
    ∷ (0xa97ceab78e15701a, 0x589b0693b97866c8)
    ∷ (0xc2041b1c464bc924, 0x220d873aacfe20ba)
    ∷ (0xd43c99b4642fbd1f, 0x3d4ba1b5eb432339)
    ∷ (0x3398bc4e400daad2, 0x064d19d0ca374a3b)
    ∷ (0x9b820a0834b0dc18, 0xdb842f51f2099a7c)
    ∷ (0xba7987ac383c1a37, 0x9304d0463e584ebd)
    ∷ (0xd3cdce26c7f1af6a, 0x203631cbea52a712)
    ∷ (0x7207811595edef3f, 0xda7874c8d15f3828)
    ∷ (0xe5689ddb13b11bae, 0xf2a2d841e0f8c6df)
    ∷ (0x53fc0cb199612910, 0x92f88bdf1d0eece9)
    ∷ (0xd9b7d3832c6b9346, 0x4b47127fa9abf13d)
    ∷ (0x850c2d24cadd986c, 0x66174a4e37c1600d)
    ∷ (0x846a71d530759ebc, 0xe3457a5cb687d682)
    ∷ (0xe1332e997d540368, 0xa3291809a1235ba6)
    ∷ (0xe3ff96b84ac70f0b, 0x6a8d782d60aff47b)
    ∷ (0x6b78f1abc85eb93e, 0x7a9681a915864672)
    ∷ (0x39e2a1ebab9796fe, 0x6d3c3a6489ce1c14)
    ∷ (0xaad60e67432e7aa9, 0x146d56a5f9b27f9a)
    ∷ (0x6e451e185c13a728, 0xae4f71f3d51b6d84)
    ∷ (0xd6f0219553bcb17c, 0xf4efc1912acf8ce4)
    ∷ (0x95a3a4efb1cff8f2, 0xe17eccadf02b512a)
    ∷ (0xafebe1d4d76364bf, 0xc0b4a6ff392f546c)
    ∷ (0xc36247edbce3cff4, 0xa75fb7282db89635)
    ∷ (0xb165c6f8290e20cb, 0x7d27c3e0fce7ae1d)
    ∷ (0x56c1e3020d2c3706, 0x46217b85dd93c71f)
    ∷ (0x6f2342e9a6bba1f8, 0x2b1d41e1545ddb0b)
    ∷ (0x9d15016b6dc6c8bd, 0x43ab8f3d725ea8d8)
    ∷ (0x07f15792a3de1275, 0x1d7d907e0111842b)
    ∷ (0x2b819001e716fa03, 0x23f1dca38fa882ee)
    ∷ (0x233735853b1fca4c, 0x81249f330ddd7b1c)
    ∷ (0x6c89a6396b80ab4b, 0x67eb11d71497c259)
    ∷ (0x529a504063c92fc0, 0x17aabbcd9c485a66)
    ∷ (0x643f03bdb7899b04, 0xc53e524796e23bab)
    ∷ (0x03aae4d0cd3b0ab3, 0x4cf6503640ca1952)
    ∷ (0x7eea97d32701c7b6, 0x2926f71012f15ca3)
    ∷ (0xc5f54c8ee595db51, 0x3f701744adefa491)
    ∷ (0x175ede59d8cc72eb, 0x9a14169dc6fbb50c)
    ∷ (0x466e6ac9763e5798, 0xc148fd661a79f638)
    ∷ (0x8dba88a016d4a823, 0xc4c209deb5b499ff)
    ∷ (0x9828eed8f98bd6ab, 0x97727f67b2c3832e)
    ∷ (0x1ad5946e90885cb2, 0xec18a55784136708)
    ∷ (0x5f111a772b8d0199, 0x61a60807dea08862)
    ∷ (0x0ced16c6b2ec2889, 0xf35e83d8c3ae648b)
    ∷ (0x86a6c9f407e692df, 0x2ae11a78770b795f)
    ∷ (0xb53e75ba47eb380d, 0x2cac03a8bd3c3364)
    ∷ (0xecb864ae35102d31, 0xd525abc3e3cb89a2)
    ∷ (0x7ab1249149e4df70, 0x78ad3758532ac1da)
    ∷ (0x5130b490aef22573, 0x5b5cebfbdc824334)
    ∷ (0xe6c2790bde8a111d, 0xbe548877a032df8d)
    ∷ (0x68d2157b0565b38d, 0x3660d19f554c5f20)
    ∷ (0xbe2234ee56d902f1, 0xc28f100e7f83d3c4)
    ∷ (0xcf8f512b0e0fe77d, 0x540134f0ee16f2be)
    ∷ (0x1c429f0dc9fe4817, 0x7437053b044455ac)
    ∷ (0x0a7a1da5eb9a3c2c, 0x6b7123b443f9562f)
    ∷ (0x888767138299b635, 0x101bf9847529b209)
    ∷ (0x15926678ef5f7e88, 0x53b076b907771ad1)
    ∷ (0x66f3bb9c801a9767, 0x0c9a3263576e9476)
    ∷ (0xedde385fcfb82be1, 0x50779bd1628d3f2d)
    ∷ (0x556b07d2c0173db5, 0x0ad72bb39d59de4d)
    ∷ (0x4d722b9d670c6d64, 0x2f6beec0d8c61698)
    ∷ (0x3154046f779ea6b1, 0xcfe979f40bbbe5e6)
    ∷ (0xc87e06b9add1f508, 0x497ca48eef077695)
    ∷ (0x89e13be27831b0e5, 0x9549c996f46f0486)
    ∷ (0xffbd09b58339471c, 0x1eba7d1664eba1d7)
    ∷ (0xcab2be989a42f96b, 0x80d8c4aa2e8bd948)
    ∷ (0x70cb3934a27ee35c, 0x13dc14ec10d397f5)
    ∷ (0x5056e861545a23a3, 0xde0edbe95dc4f5bb)
    ∷ (0x8031c2975e90867a, 0xb2ceba14f75c4bfb)
    ∷ (0x3cdf4e583fda88e8, 0xb9e5ca3e495337e2)
    ∷ (0xfbe6baf7eddc5fda, 0x4f31bd5e25303cae)
    ∷ (0x4ed8cf4daa3767d7, 0x639dbef6980c0fca)
    ∷ (0x5ddda2561c1e0dfa, 0xa80268231f2c27bf)
    ∷ (0x3469ebdce3d3b8a7, 0x1b3089aecb26ce10)
    ∷ (0xfd71b194b4aa4b7f, 0xd71e1d32a5670e0a)
    ∷ (0x909e4b5c2582e6e4, 0x35a73cf730b67adc)
    ∷ (0x5a2cf5c4bfc01f8f, 0xb57ff85d1e3da394)
    ∷ (0x62a808deeeff8fa1, 0x5d11f22b16b5090f)
    ∷ (0xee74dc8f02832152, 0x1c81cbe72247267f)
    ∷ (0x58e04de5885313ec, 0x7cdb9879dfb10c49)
    ∷ (0x163882a82264743b, 0x1f46268f47bd0383)
    ∷ (0x492998df09e975a2, 0x7ee02e88991d8be1)
    ∷ (0x5b4aa9354568195f, 0x302dc84f9f7b151b)
    ∷ (0xdc8a3c30b8268d50, 0x9f9ee2256936dacb)
    ∷ (0x75f6d6873633fd4a, 0xc705e4b6d04ebc03)
    ∷ (0x9334af8ce8b9ec57, 0x79516cc1707c638e)
    ∷ (0xa1ca4f33521c4055, 0xfa4e45033b0d9f3a)
    ∷ (0xad2759f5e0f068dc, 0x0910c6dbf8a3fbb1)
    ∷ (0x9fd9b94a5a55c4de, 0x8a0fef19b3d20705)
    ∷ (0x3b2e19ca9c049a9d, 0xa4985a404842b3c9)
    ∷ (0xbb1fdb5dc2941ce7, 0x1656e054bf1ef832)
    ∷ (0xfc17ed654e024daf, 0x524c2d202421b885)
    ∷ (0xc1aeffcc8b70c397, 0x6efbd70cec3439e8)
    ∷ (0x81579e66a43880aa, 0x379c8a06761afd74)
    ∷ (0xf0fafba3fcee6526, 0xa112aef8e78fdc0e)
    ∷ (0x3a48453b66ac9c4d, 0x21ca6a52c9040546)
    ∷ (0xb8b53f8d0faf1654, 0x5aa0b062ffd4e160)
    ∷ (0xe8e3d7ec5bf535f7, 0x84ae6b8ba21014db)
    ∷ (0xd0672af60acaa5d9, 0x6cc061fdaa98be40)
    ∷ (0xb9d3637cf5071084, 0xdff280707e9257ef)
    ∷ (0x9609403f7cf4f241, 0xad889c9bb0e14878)
    ∷ (0xef12807ef82b2782, 0x99d3fbf5a30190f0)
    ∷ (0x57a7bff3f78431d6, 0xc3734b975cd57190)
    ∷ (0x6795e76d7ab291b7, 0x89c80271d62822f9)
    ∷ (0xe299ca49b06f09db, 0xefdf483fe1e942f4)
    ∷ (0x45c48e19bb055d2b, 0x8dbead505ab3ef6a)
    ∷ (0x2d169b62be60eea6, 0xbbde7ccf0fffb04a)
    ∷ (0x3db912a9c5728e38, 0x3cb7fa2cc815816d)
    ∷ (0xcc25b5fbc334edce, 0x18f764c6aedcebec)
    ∷ (0xf3501f7331d56f95, 0xede4fecea745c55c)
    ∷ (0x63ce542f14578971, 0xd843c23997f3bf80)
    ∷ (0x791bc04184dfd5c3, 0x345b676e13e0d888)
    ∷ (0x4353857ae273498e, 0x15910d3cdae4ddce)
    ∷ (0x74908a76cc9bfb9a, 0x4257d4a451080a8c)
    ∷ (0x7361dde46f45e9ef, 0x5f2a44da50198ea7)
    ∷ (0xdb7b6ba21bf89f25, 0x82e3725b68275ee0)
    ∷ (0x1fe87bdd04c542a4, 0x38c1550d448e4cfe)
    ∷ (0x25a03ee66269dee9, 0x190b3f5f8d8a49b8)
    ∷ (0x5986111472fb153c, 0xf989a86b5ef7bac6)
    ∷ (0xae8dbd252dcb626f, 0x45e696edb869e2e3)
    ∷ (0x32fee0bfbaa5ac02, 0x831f29c24b71fcb4)
    ∷ (0x197f70be5db35601, 0xa0eef561c4d97e5a)
    ∷ (0xfa80e6061774590a, 0xca638d4ca4768a21)
    ∷ (0xd1017607f062a309, 0xe99251ef2bde08cf)
    ∷ (0xea2f6fcd6c663994, 0x4d0a0baf639cbb06)
    ∷ (0x419f3d5bd5e045ed, 0xdc356d181b687213)
    ∷ (0x0d8b4a3748442e59, 0x760cb3ca42e8d204)
    ∷ (0x3032589e8d36a061, 0x4abb49e68afd5369)
    ∷ (0xf84c5e2720e75569, 0x03c7ed6865fa25fc)
    ∷ (0x773a6ea601a0f129, 0x0ea1849211c213de)
    ∷ (0x282b74d12a2df0b0, 0x6f078c95cf629bbc)
    ∷ (0xf5c7141068a37b30, 0x75cb5ea22712f7f8)
    ∷ (0x294d2820d085f660, 0xea55bc874e242d33)
    ∷ (0x1e8e272cfe6d4474, 0xbd93651fc5c8fa71)
    ∷ (0x94c5f81e4b67fe22, 0x642cfcbf716de7a5)
    ∷ (0xac4105041a586e0c, 0x8c42f6c979e54d3e)
    ∷ (0xe7a425fa242217cd, 0x3b06b86521746902)
    ∷ (0x994eb2290323d07b, 0x12204f75338535a1)
    ∷ (0x3f75aa88f2e1825b, 0xf5139a0809992eb0)
    ∷ (0x8f7630812147a440, 0x0d6669fa74383622)
    ∷ (0xdf20d8e0751d87e3, 0xd368b21329fcc399)
    ∷ (0x37c30f0c2ee8b214, 0x57c6d9988becd742)
    ∷ (0x0000000000000000, 0x0000000000000000)
    ∷ (0x126331ea4c816cfd, 0x4ecde6c706669efa)
    ∷ (0xb2cf2228e4352a78, 0x31d193d6bc2db74f)
    ∷ (0xcee90ddaf4a7e1ad, 0xd15304e26f504431)
    ∷ (0x01665cf1faa806d0, 0x855230128146b68f)
    ∷ (0x976f1cce865cf491, 0x28daac8931a7fef7)
    ∷ (0x0b1c415411323afc, 0xee2313a6c2bfe0a0)
    ∷ (0x765c3257fb08f7f9, 0x8bf3b4809084a551)
    ∷ (0x0e21aee7857f24ea, 0x3afae3fc0222cb56)
    ∷ (0xa0ac13c2a8b44685, 0x7f1c7511ba4b29b5)
    ∷ (0xe40ec12ae9191d7e, 0x77f0e85361be7050)
    ∷ (0x350fb72d197bbe77, 0x9e62b9bc4a60789f)
    ∷ (0x1d24c3fc33564ec7, 0xf16535298502e323)
    ∷ (0x2fda234389f3e2c5, 0x727a1cebce731f97)
    ∷ (0x69b4498affcdb55d, 0xb332e18dd40ae9af)
    ∷ (0x0f47f2167fd7223a, 0xbfa8d3ee83647dd9)
    ∷ (0x7c262ff21092cbd5, 0xe0829734d37df37e)
    ∷ (0x7f8ccb22dda9c166, 0xac74c70293b7ea2c)
    ∷ (0x3e13f6790849848b, 0x7041aa1a88df983f)
    ∷ (0x5e774686d1250749, 0xe4f438155fe63eed)
    ∷ (0x6064b0ffd96c83c2, 0x94b5920fd739a6d2)
    ∷ (0x045bb3426ee518c6, 0x518bc04841db9d79)
    ∷ (0x8a4bdf32b50aba56, 0xd9bf99a0b4a51dd4)
    ∷ (0x11c9d53a81ba664e, 0x023bb6f146ac87a8)
    ∷ (0xe9858b1da15d3327, 0x01fc5b992356a254)
    ∷ (0xa260abe39f274ae6, 0xb6b815357bc78668)
    ∷ (0xa591fc713cf95893, 0xabc5854b7ad60243)
    ∷ (0xcbd4e26960eaffbb, 0x058af4b8afcd6fc7)
    ∷ (0x18192c4fa71b50d1, 0x25bcc573459fc8d5)
    ∷ (0x02ccb82137930c63, 0xc9a46024c18cafdd)
    ∷ (0x4be520fe3e7a79c1, 0xb7444eac5891243c)
    ∷ (0xf2364382cb7d6945, 0x68b6cedc260373d3)
    ∷ (0x9ae456f9ce18dac8, 0x5ed61f43734f2cf3)
    ∷ (0x053defb3944d1e16, 0xd4d9f05ac09d2bf6)
    ∷ (0xb0039a09d3a6261b, 0xf875f3f27da11892)
    ∷ (0xa63b18a1f1c25220, 0xe733d57d3a1c1b11)
    ∷ (0x6deffac89128ad9b, 0xe2b921c595d174d6)
    ∷ (0x8cdcd451ec7caef3, 0x419039cc34f22f70)
    ∷ (0xe055726887fc05b8, 0x267b281b2065ed29)
    ∷ (0xa75d44500b6a54f0, 0x6261e56fbb5aad9e)
    ∷ (0x21fb8da40c8cc62f, 0x4880ff17cc51d4c1)
    ∷ (0xd2ab92d73d59a9ba, 0xa56401d96b14119d)
    ∷ (0x08b6a584dc09304f, 0xa2d543908275f9f2)
    ∷ (0xb694916a8ad032be, 0x605a539efdf62a36)
    ∷ (0x6102ec0e23c48512, 0x11e7a21d567f105d)
    ∷ (0xa4f7a080c6515e43, 0x2e97b559fb90b4cc)
    ∷ (0xd55ac5459e87bbcf, 0xb81991a76a0595b6)
    ∷ (0x839b264793ab8cc9, 0xfe38ea22b79652a9)
    ∷ (0x5cbbfea7e6b60b2a, 0x2d5058319e6a9130)
    ∷ (0x4a837c0fc4d27f11, 0x32167ebed9d792b3)
    ∷ (0x2ebc7fb2735be415, 0xf7282cf94f35a918)
    ∷ (0xf19ca752064663f6, 0x24409eea66c96a81)
    ∷ (0x1bb3c89f6a205a62, 0x694a95450555d187)
    ∷ (0xfedb5544799141cc, 0x9be84d04e5ad1758)
    ∷ (0xf4a148e1920b7de0, 0xf0996eb0a6544177)
    ∷ (0x71ad65c558d6e58c, 0x968e24fe9195217a)
    ∷ (0x8e106c70dbefa290, 0x883459e8f57e80ad)
    ∷ (0xc0c8a33d71d8c547, 0xeba9e71e6d728f67)
    ∷ (0x209dd155f624c0ff, 0xcdd2cf054d17624e)
    ∷ (0xc493107f1f3ddd81, 0xba2227562ca9121e)
    ∷ (0x4235d98b18db4f5e, 0x90c33d2e5ba26b41)
    ∷ (0x44a2d2e841ad5bfb, 0x08ec9d42dbf559e5)
    ∷ (0xabb05296b9867c79, 0x913f66b778f4c915)
    ∷ (0xa306f712658f4c36, 0x33ea2527fa8130e7)
    ∷ (0xc739f4afd206d732, 0xf6d477606c630b4c)
    ∷ (0x9ebfe5bba0fdc20e, 0x0f5ddf0b3294b18a)
    ∷ (0x2ae7ccf01dbefcd3, 0xa6a3ecb10eee3461)
    ∷ (0xde4684118fb58133, 0x563a8201a8ba7516)
    ∷ (0xf70bac315f307753, 0xbc6f3e86e69e5825)
    ∷ (0x9252f37d1211ea87, 0xfc035cd3f13ad501)
    ∷ (0xbf44681fac710421, 0x47dd201cfec5654b)
    ∷ (0x65595f4c4d219dd4, 0x406c625517a48d24)
    ∷ (0x4fbe93bc509f6107, 0xe6cf8ee4194ab945)
    ∷ (0x470836388c965148, 0x441acd749b3f40b7)
    ∷ (0xb458294bbd433edd, 0xa9fe33ba3c7a85eb)
    ∷ (0xb7f2cd9b7078346e, 0xe508638c7cb09cb9)
    ∷ (0x36a553fdd440b4c4, 0xd294e98a0aaa61cd)
    ∷ (0x14f43a8915f77858, 0xd6e246ab8631ac5e)
    ∷ (0x22516974c1b7cc9c, 0x0476af218c9bcd93)
    ∷ (0x7d407303ea3acd05, 0x65d0a726523b45f1)
    ∷ (0x82fd7ab669038a19, 0x7b6ada3036d0e426)
    ∷ (0xc9185a485779f3d8, 0xcc2e949c6e41c01a)
    ∷ (0xddec60c1428e8b80, 0x1accd237e8706c44)
    ∷ (0x10af89cb7b12609e, 0x876986e3c7ea3127)
    ∷ (0xeb49333c96ce3f44, 0xc8583bbde2da0d89)
    ∷ (0xa81ab64674bd76ca, 0xddc93681383ed047)
    ∷ (0x40f961aa2f48433d, 0x59675d0a9a2ec49c)
    ∷ (0x3884fd1a513f902e, 0xe86e0a760888aa9b)
    ∷ (0x484fc42ef3417372, 0xfbb21e9a185b3d6e)
    ∷ (0xbd88d03e9be20842, 0x8e7940383f49ca96)
    ∷ (0x540d5b233abf3b65, 0x8f851ba11c1f68c2)
    ∷ []
